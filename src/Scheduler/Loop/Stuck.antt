-- ===== src/Scheduler/Loop/Stuck.antt =====
-- scheduler_run where every PROC waits for another one: the loop goes on without a PROC to run.
use libproxc.Base.{ℕ, ◌≡◌, refl, true, none, List, [], ◌∷◌}
use libproxc.Platform.{Platform}
use libproxc.Store.{State, M, ret, fault, out_of_fuel}
use libproxc.Scheduler.Wakeup.{scheduler_check_qs, min_us}
use libproxc.Scheduler.Wakeup.Idle.{min_us-least}
use libproxc.Scheduler.Loop.{
  Contexts, Tick, idle, next_ready, begin_turn, scheduler_running, scheduler_run,
}
use libproxc.Scheduler.Loop.Turns.{wakeup-none}

-- No PROC is ready, and none is to wake up.
pub record NoneRuns (s : State) : Type 0 where
  pub none_ready : s.sched.ready_q ≡ []
  pub none_sleeps : s.sched.sleep_rb ≡ []
  pub none_waits : s.sched.altsleep_rb ≡ []

module _ ⦃v : Platform⦄ where
  next_ready-none : (s : State) (now_us : ℕ) → NoneRuns s → next_ready now_us s ≡ ret none s
  unfolding next_ready
  next_ready-none s now_us h = rw (wakeup-none s now_us h.none_sleeps h.none_waits, h.none_ready)

  begin_turn-idle :
      (program : ℕ → M (Unit {0})) (now_us : ℕ) (ctxs : Contexts) (s : State)
      → NoneRuns s
      → begin_turn program now_us ctxs s ≡ idle s
  unfolding begin_turn
  begin_turn-idle program now_us ctxs s h = rw (next_ready-none s now_us h, begin_turn)

  run-spins :
      (program : ℕ → M (Unit {0})) (fuel : ℕ) (ticks : List Tick) (ctxs : Contexts) (s : State)
      → NoneRuns s
      → scheduler_running s.sched ≡ true
      → scheduler_run program fuel ticks ctxs s ≡ fault out_of_fuel
  unfolding scheduler_run
  run-spins program fuel [] ctxs s h goes = rw (goes)
  run-spins program fuel (tick ∷ ticks) ctxs s h goes =
      rw (begin_turn-idle program tick.now_us ctxs s h, goes)
        (run-spins program fuel ticks ctxs s h goes)

  check_qs-none : (s : State) (now_us : ℕ) → NoneRuns s → scheduler_check_qs now_us s ≡ 0
  unfolding scheduler_check_qs
  check_qs-none s now_us h =
      let zero : min_us now_us s ≡ 0 =
        min_us-least s now_us [] [] h.none_sleeps h.none_waits refl in
      rw (zero, h.none_ready)

  -- The loop is to go on, but no PROC is ready, and none sleeps or waits for a time guard: every PROC
  -- that is left waits for another one. Then the loop finds no end, however many rounds it has, and
  -- _scheduler_checkQs does not sleep in any of them.
  pub stuck-spins :
      (program : ℕ → M (Unit {0})) (fuel now_us : ℕ) (ticks : List Tick) (ctxs : Contexts)
      (s : State)
      → NoneRuns s
      → scheduler_running s.sched ≡ true
      → (scheduler_run program fuel ticks ctxs s ≡ fault out_of_fuel)
        × (scheduler_check_qs now_us s ≡ 0)
  stuck-spins program fuel now_us ticks ctxs s h goes =
      (run-spins program fuel ticks ctxs s h goes, check_qs-none s now_us h)
