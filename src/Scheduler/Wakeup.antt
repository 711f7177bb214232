-- ===== src/Scheduler/Wakeup.antt =====
-- _scheduler_wakeup and _scheduler_checkQs of scheduler.c. `now_us` is what gettimestamp returns.
pub mod Due
pub mod Woken
pub mod Rounds
pub mod Idle
use libproxc.Base.{
  ℕ, zero, suc, ◌-◌, ◌%◌, ◌^◌, Bool, true, false, ◌&&◌, ◌||◌, none, some, if◌then◌else◌, ltb, ◌==◌,
  is_empty, length,
}
use libproxc.Platform.{Platform}
use libproxc.Store.{
  State, ProcState, M, pure, fail, out_of_fuel, ◌>>=◌, ◌>>◌, deref, load_proc, load_sched,
  load_guard, load_alt,
}
use libproxc.Alt.Accept.{alt_accept}
use libproxc.Scheduler.Queues.{scheduler_addready}
use libproxc.Scheduler.Sleep.{scheduler_remsleep, scheduler_remaltsleep}

-- The test of an alternation's state in _scheduler_wakeup.
abbrev pub is_altwait : ProcState → Bool
is_altwait ProcState.altwait = true
is_altwait _ = false

module _ ⦃v : Platform⦄ where
  -- A guard whose time is up: its alternation is resumed, unless it has been accepted already.
  unfoldable pub wakeup_guard : ℕ → M (Unit {0})
  wakeup_guard g = do
    guard ← load_guard g
    scheduler_remaltsleep g
    a ← deref guard.alt
    alt ← load_alt a
    alt_proc ← load_proc alt.proc
    if is_altwait alt_proc.state
        then (do won ← alt_accept g; if won then scheduler_addready alt.proc else pure tt)
        else pure tt

module _ ⦃v : Platform⦄ (now_us : ℕ) where
  -- Each round takes a node off its tree, so as many rounds as the tree has nodes are enough.
  unfoldable pub wakeup_procs : (fuel : ℕ) → M (Unit {0})
  wakeup_procs zero = do
    sched ← load_sched
    elim (v.rb_min sched.sleep_rb) [
      | none ↦ pure tt
      | some p ↦ do
        proc ← load_proc p
        if ltb now_us proc.sleep_us then pure tt else fail out_of_fuel
    ]
  wakeup_procs (suc fuel) = do
    sched ← load_sched
    elim (v.rb_min sched.sleep_rb) [
      | none ↦ pure tt
      | some p ↦ do
        proc ← load_proc p
        let rest = wakeup_procs fuel
        if ltb now_us proc.sleep_us
            then pure tt
            else do scheduler_remsleep p; scheduler_addready p; rest
    ]

  unfoldable pub wakeup_guards : (fuel : ℕ) → M (Unit {0})
  unfolding wakeup_guard
  wakeup_guards zero = do
    sched ← load_sched
    elim (v.rb_min sched.altsleep_rb) [
      | none ↦ pure tt
      | some g ↦ do
        guard ← load_guard g
        if ltb now_us guard.usec then pure tt else fail out_of_fuel
    ]
  wakeup_guards (suc fuel) = do
    sched ← load_sched
    elim (v.rb_min sched.altsleep_rb) [
      | none ↦ pure tt
      | some g ↦ do
        guard ← load_guard g
        let rest = wakeup_guards fuel
        if ltb now_us guard.usec then pure tt else do wakeup_guard g; rest
    ]

  unfoldable pub scheduler_wakeup : M (Unit {0})
  unfolding wakeup_procs wakeup_guards
  scheduler_wakeup = do
    sched ← load_sched
    if is_empty sched.sleep_rb && is_empty sched.altsleep_rb
        then pure tt
        else do wakeup_procs (length sched.sleep_rb); wakeup_guards (length sched.altsleep_rb)

  -- The earliest wake-up time of the sleepers, 0 if there are none.
  unfoldable pub min_us : State → ℕ
  min_us s =
      let of_procs : ℕ = elim (v.rb_min s.sched.sleep_rb) [
        | none ↦ 0
        | some p ↦ elim (s.procs p) [ none ↦ 0 | some proc ↦ proc.sleep_us ]
      ] in
      elim (v.rb_min s.sched.altsleep_rb) [
        | none ↦ of_procs
        | some g ↦ elim (s.guards g) [
          | none ↦ of_procs
          | some guard ↦ if of_procs == 0 || ltb guard.usec of_procs then guard.usec else of_procs
        ]
      ]

  -- The microseconds that _scheduler_checkQs sleeps, cut to the 32 bits of useconds_t; the
  -- `usleep` itself is outside the model.
  unfoldable pub scheduler_check_qs : State → ℕ
  unfolding min_us
  scheduler_check_qs s =
      if is_empty s.sched.ready_q
      then (if ltb 0 (min_us s) && ltb now_us (min_us s) then (min_us s - now_us) % 2 ^ 32 else 0)
      else 0
