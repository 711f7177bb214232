-- ===== src/Scheduler/Loop.antt =====
-- The scheduler's loop: _scheduler_running, scheduler_run and scheduler_free of scheduler.c, and
-- proxc_start of proxc.c. The context that a PROC saves at a yield is the rest of its run; the
-- contexts stand beside the store, by the PROC's address.
pub mod Turns
pub mod Fair
pub mod Emptied
pub mod Exit
pub mod Stuck
use libproxc.Base.{
  ℕ, zero, suc, ◌==◌, Bool, true, false, not, ◌&&◌, ◌||◌, Option, none, some, List, [], ◌∷◌,
  if◌then◌else◌, head?, is_empty, length, update,
}
use libproxc.Platform.{Platform}
use libproxc.Platform.Links.{tailq_remove}
use libproxc.Store.{
  State, ProcState, Scheduler, Fault, Run, ret, fault, yielded, dangling, out_of_fuel, M, pure,
  fail, ◌>>=◌, ◌>>◌, deref, load_proc, put_proc, load_sched, put_sched,
}
use libproxc.Scheduler.Queues.{scheduler_addready}
use libproxc.Scheduler.Wakeup.{scheduler_wakeup}
use libproxc.Proc.Life.{proc_mainfxn, proc_create, proc_free}
use libproxc.Context.{ctx_madvise}
use libproxc.Scheduler.Queues.{new_scheduler}

abbrev pub eq_option : Option ℕ → Option ℕ → Bool
eq_option none none = true
eq_option (some a) (some b) = a == b
eq_option _ _ = false

unfoldable pub scheduler_running : Scheduler → Bool
scheduler_running sched = not sched.is_exit && not (is_empty sched.total_q)

abbrev pub Contexts : Type 0
Contexts = ℕ → M (Unit {0})

-- How a round of the loop ends: with a PROC whose context was switched to, or with none.
pub data Turn : Type 0 where
  idle : State → Turn
  ran : (p : ℕ) → State → M (Unit {0}) → Turn
  broken : Fault → Turn

-- A context that the scheduler switched to comes back at the PROC's next yield. A PROC's function
-- never returns (proc_mainfxn).
abbrev pub switched : (p : ℕ) → Run (Unit {0}) → Turn
switched p (ret _ _) = broken dangling
switched p (fault e) = broken e
switched p (yielded s k) = ran p s k

-- What a round of the loop meets: the reading of the clock, the stack pointer that the PROC comes
-- back with, and whether madvise succeeds.
pub record Tick : Type 0 where
  pub now_us : ℕ
  pub sp : ℕ
  pub madvise_ok : Bool

module _ ⦃v : Platform⦄ where
  -- The head of a round: the sleepers whose time is up, and the PROC to run, taken off the ready
  -- queue, if there is one.
  unfoldable pub next_ready : (now_us : ℕ) → M (Option ℕ)
  unfolding scheduler_wakeup
  next_ready now_us = do
    scheduler_wakeup now_us
    sched ← load_sched
    elim (head? sched.ready_q) [
      | none ↦ pure none
      | some p ↦ do
        q ← tailq_remove sched.ready_q p
        put_sched (record sched { ready_q = q; curr_proc = some p })
        proc ← load_proc p
        put_proc p (some (record proc { state = ProcState.running }))
        pure (some p)
    ]

  -- The switch on the PROC's state after it has come back.
  unfoldable pub after_switch : (fuel : ℕ) → ProcState → (p : ℕ) → M (Unit {0})
  unfolding proc_free
  after_switch fuel ProcState.running p = scheduler_addready p
  after_switch fuel ProcState.ready p = scheduler_addready p
  after_switch fuel ProcState.ended p = do
    sched ← load_sched
    put_sched
        (record sched { is_exit = sched.is_exit || eq_option sched.curr_proc sched.main_proc })
    proc_free fuel (some p)
  after_switch fuel _ p = pure tt

  unfoldable pub finish_turn : (fuel : ℕ) → Tick → (p : ℕ) → M (Unit {0})
  unfolding after_switch ctx_madvise
  finish_turn fuel tick p = do
    ctx_madvise tick.sp tick.madvise_ok p
    proc ← load_proc p
    after_switch fuel proc.state p
    sched ← load_sched
    put_sched (record sched { curr_proc = none })

  -- ctx_switch to a PROC: its saved context, or its function where it has not run yet.
  unfoldable pub enter : (program : ℕ → M (Unit {0})) → Contexts → (p : ℕ) → M (Unit {0})
  unfolding proc_mainfxn
  enter program ctxs p = do
    proc ← load_proc p
    put_proc p (some (record proc { ctx_fresh = false }))
    if proc.ctx_fresh then proc_mainfxn (program proc.fxn) p else ctxs p

  -- A round up to the point where the PROC has come back.
  unfoldable pub begin_turn : (program : ℕ → M (Unit {0})) (now_us : ℕ) → Contexts → State → Turn
  unfolding next_ready enter
  begin_turn program now_us ctxs s = elim (next_ready now_us s) [
    | ret none s' ↦ idle s'
    | ret (some p) s' ↦ switched p (enter program ctxs p s')
    | fault e ↦ broken e
    | yielded _ _ ↦ broken dangling
  ]

  -- The loop; it runs on as long as there are ticks. `program` has the functions of the PROCs.
  unfoldable pub scheduler_run :
      (program : ℕ → M (Unit {0})) (fuel : ℕ) → List Tick → Contexts → State → Run (Unit {0})
  unfolding begin_turn finish_turn scheduler_running
  scheduler_run program fuel [] ctxs s =
      if scheduler_running s.sched then fault out_of_fuel else ret tt s
  scheduler_run program fuel (tick ∷ ticks) ctxs s =
      let round : Run (Unit {0}) = elim (begin_turn program tick.now_us ctxs s) [
        | idle s' ↦ scheduler_run program fuel ticks ctxs s'
        | ran p s' k ↦ elim (finish_turn fuel tick p s') [
          | ret _ s'' ↦ scheduler_run program fuel ticks (update ctxs p k) s''
          | fault e ↦ fault e
          | yielded _ _ ↦ fault dangling
        ]
        | broken e ↦ fault e
      ] in
      if scheduler_running s.sched then round else ret tt s

  -- `while (!TAILQ_EMPTY(totalQ)) proc_free(TAILQ_FIRST(totalQ))`, on as much fuel as it has rounds.
  unfoldable pub scheduler_free : (fuel rounds : ℕ) → M (Unit {0})
  unfolding proc_free
  scheduler_free fuel zero = do
    sched ← load_sched
    if is_empty sched.total_q then pure tt else fail out_of_fuel
  scheduler_free fuel (suc rounds) = do
    sched ← load_sched
    elim (head? sched.total_q) [
      | none ↦ pure tt
      | some p ↦ do proc_free fuel (some p); scheduler_free fuel rounds
    ]

  -- proxc_start: `page_size` is the system's, `mem` and `stack` are for the main PROC.
  unfoldable pub proxc_start :
      (program : ℕ → M (Unit {0})) (fuel : ℕ)
      → List Tick
      → (page_size : ℕ) → (mem stack : Option ℕ) (errno fxn : ℕ) → M (Unit {0})
  unfolding proc_create scheduler_run scheduler_free new_scheduler
  proxc_start program fuel ticks page_size mem stack errno fxn = do
    put_sched (new_scheduler page_size)
    (_, proc) ← proc_create mem stack errno fxn
    p ← deref proc
    sched ← load_sched
    put_sched (record sched { main_proc = some p })
    scheduler_addready p
    scheduler_run program fuel ticks (λ _. fail dangling)
    sched' ← load_sched
    scheduler_free fuel (length sched'.total_q)
