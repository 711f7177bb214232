-- ===== src/Tests/Rounds.antt =====
-- The theorems on the rounds of the scheduler's loop at concrete inputs.
use libproxc.Base.{
  ℕ, length, zero, suc, ap, arith, ◌≡◌, refl, true, false, none, some, [], ◌∷◌, update,
}
use libproxc.Platform.Model.{lists}
use libproxc.Store.{
  State, ProcState, Proc, Builder, BuildType, M, pure, ◌>>◌, ret, yielded, bind_run,
}
use libproxc.Proc.Life.{proc_mainfxn}
use libproxc.Scheduler.Queues.{proc_self, proc_yield}
use libproxc.Scheduler.Queues.Yield.{yield-from}
use libproxc.Scheduler.Loop.{
  Contexts, Tick, ran, begin_turn, finish_turn, scheduler_running, scheduler_run, scheduler_free,
}
use libproxc.Scheduler.Loop.Turns.{entered, measured, begins-ran, running, turn-last}
use libproxc.Scheduler.Loop.Fair.{YieldsFor, Turning}
use libproxc.Scheduler.Loop.Emptied.{Emptied}
use libproxc.Scheduler.Loop.Exit.{main-ends}
use libproxc.Tests.States.{no_sched, no_state, a_proc, a_build}

abbrev old_proc : Proc
old_proc = record (a_proc ProcState.ready) { ctx_fresh = false }

-- PROCs 1 and 2 are ready.
abbrev store : State
store = record no_state {
  procs = update (update no_state.procs 1 (some old_proc)) 2 (some old_proc);
  sched = record no_sched { ready_q = 1 ∷ 2 ∷ [] };
}

abbrev tick : Tick
tick = record { now_us = 7; sp = 8000; madvise_ok = true }

-- Every PROC calls proc_yield, and ends after that.
abbrev ctxs : Contexts
ctxs p = proc_yield >> proc_mainfxn (pure tt) p

yield-then :
    (p : ℕ) (m : M (Unit {0})) (t : State)
    → t.sched.curr_proc ≡ some p
    → (proc_yield >> m) t ≡ yielded t m
yield-then p m t curr = ap (λ r. bind_run r (λ _. m)) (yield-from t curr)

turn-last_example :
    (s1 s2 : State) × (begin_turn (λ _. pure tt) 7 ctxs store ≡ ran 1 s1 (proc_mainfxn (pure tt) 1))
    × (s1.sched.curr_proc ≡ some 1)
    × (finish_turn 4 tick 1 s1 ≡ ret tt s2)
    × (s2.sched.ready_q ≡ 2 ∷ 1 ∷ [])
    × (s2.sched.curr_proc ≡ none)
    × (s2.procs 1 ≡ some (record (measured (entered old_proc) 8000) { state = ProcState.ready }))
turn-last_example =
    turn-last (λ _. pure tt) ctxs (proc_mainfxn (pure tt) 1) 4 1 (2 ∷ []) tick store refl refl refl
      refl refl refl
      (yield-then 1 (proc_mainfxn (pure tt) 1) (running store 1 old_proc (2 ∷ [])) refl) refl refl

-- A context that calls proc_yield `n` times.
abbrev again : ℕ → M (Unit {0})
again zero = pure tt
again (suc n) = proc_yield >> again n

abbrev again_YieldsFor : (p n : ℕ) → YieldsFor p n (again n)
again_YieldsFor p zero = tt
again_YieldsFor p (suc n) = (again n, yield-then p (again n), again_YieldsFor p n)

abbrev twice : Contexts
twice p = again 2

abbrev queued : State
queued = record store { sched = record store.sched { total_q = 1 ∷ 2 ∷ [] } }

abbrev queued_Turning : Turning 8000 2 twice queued (1 ∷ 2 ∷ [])
unfolding scheduler_running
queued_Turning = record {
  goes = refl;
  none_sleeps = refl;
  none_waits = refl;
  queue = refl;
  once = refl;
  procs = ((old_proc, refl, (refl, omega arith)), ((old_proc, refl, (refl, omega arith)), tt));
  yields = (again_YieldsFor 1 2, (again_YieldsFor 2 2, tt));
}

-- GO has started PROC 2, with the builder 12.
abbrev started_proc : Proc
started_proc = record old_proc { proc_build = some 12 }

abbrev its_build : Builder
its_build = record (a_build BuildType.proc_build) { is_root = true; proc = some 2 }

-- The main PROC, 1, ends, while PROC 2 is ready.
abbrev last : State
last = record queued {
  procs = update queued.procs 2 (some started_proc);
  builds = update queued.builds 12 (some its_build);
  sched = record queued.sched { main_proc = some 1 };
}

abbrev ends : Contexts
ends p = proc_mainfxn (pure tt) p

abbrev running_last : State
running_last = running last 1 old_proc (2 ∷ [])

abbrev ended_proc : Proc
ended_proc = record old_proc { state = ProcState.ended }

abbrev ended : State
ended = record running_last { procs = update running_last.procs 1 (some ended_proc) }

ended_begins : begin_turn (λ _. pure tt) 7 ends last ≡ ran 1 ended (pure tt)
unfolding proc_mainfxn proc_yield proc_self
ended_begins =
    begins-ran (λ _. pure tt) ends (pure tt) 1 (2 ∷ []) 7 last ended refl refl refl refl refl refl

last_runs : scheduler_running last.sched ≡ true
unfolding scheduler_running
last_runs = refl

main-ends_example :
    (s2 s3 : State) × (scheduler_run (λ _. pure tt) 4 (tick ∷ tick ∷ []) ends last ≡ ret tt s2)
    × (s2.sched.total_q ≡ 2 ∷ [])
    × (scheduler_free 4 (length s2.sched.total_q) s2 ≡ ret tt s3)
    × Emptied ended s3 (1 ∷ 2 ∷ [])
main-ends_example =
    main-ends (λ _. pure tt) 2 1 tick (tick ∷ []) ends (pure tt) last ended {proc = ended_proc}
      last_runs ended_begins refl refl refl refl refl refl refl refl refl
      (
        (ended_proc, refl, tt),
        (
          (
            started_proc,
            refl,
            record {
              build = its_build;
              at = refl;
              typed = refl;
              is_root = refl;
              no_waiter = refl;
              own = refl;
            },
          ),
          tt,
        ),
      )
