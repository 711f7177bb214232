-- ===== src/Tests/Sleeps.antt =====
-- The theorems on sleeping and idling at concrete inputs.
use libproxc.Base.{◌+◌, ◌≤◌, ◌<◌, inl, ℕ, ◌≡◌, refl, true, some, [], ◌∷◌, update, arith, elem, leb}
use libproxc.Platform.Model.{lists}
use libproxc.Store.{State, Proc, ProcState, ret, yielded, pure, fault, out_of_fuel}
use libproxc.Scheduler.Wakeup.{wakeup_procs}
use libproxc.Scheduler.Wakeup.{scheduler_check_qs}
use libproxc.Scheduler.Wakeup.Idle.{check_qs-bounds}
use libproxc.Scheduler.Loop.{Contexts, Tick, scheduler_running, scheduler_run}
use libproxc.Scheduler.Loop.Stuck.{stuck-spins}
use libproxc.Proxc.Control.{proxc_sleep}
use libproxc.Proxc.Sleeping.{until, slept_on, sleep-wakes}
use libproxc.Tests.States.{no_sched, no_state, a_proc}

abbrev sleeper : ℕ → Proc
sleeper us = record (a_proc ProcState.running) { sleep_us = us }

-- PROC 1 runs; PROC 2 sleeps until 500.
abbrev store : State
store = record no_state {
  procs = update (update no_state.procs 1 (some (sleeper 0))) 2 (some (sleeper 500));
  sched = record no_sched { curr_proc = some 1; sleep_rb = 2 ∷ []; sleep_num = 1 };
}

-- PROC 1 sleeps too, until 501.
abbrev both : State
both = record no_state {
  procs = update (update no_state.procs 1 (some (until (sleeper 0) 501))) 2 (some (sleeper 500));
  sched = record no_sched { sleep_rb = 2 ∷ 1 ∷ []; sleep_num = 2 };
}

-- At 400 PROC 1 wants to sleep for 100; at 600 it is awake.
sleep-wakes_example :
    (asleep_in woken_in : State) × (proxc_sleep 100 400 store ≡ yielded asleep_in (slept_on 1))
    × (asleep_in.procs 1 ≡ some (until (sleeper 0) 501))
    × (elem 1 asleep_in.sched.sleep_rb ≡ true)
    × (wakeup_procs 600 2 both ≡ ret tt woken_in)
    × (elem 1 woken_in.sched.ready_q ≡ leb 501 600)
    × (slept_on 1 store
        ≡ ret tt (record store {
          procs = update store.procs 1 (some (record (sleeper 0) { sleep_us = 0 }));
        }))
sleep-wakes_example =
    sleep-wakes 1 100 400 600 1 store both store {proc = sleeper 0} refl refl (omega arith) refl
      refl (record { taken = λ i lt. ground arith; free = refl }) (omega arith) (omega arith) refl
      refl refl refl (omega arith)
      (
        record { proc = sleeper 500; at = refl; out = refl },
        (record { proc = until (sleeper 0) 501; at = refl; out = refl }, tt),
      )
      refl

-- At 400 PROC 1 is to wake up in 101 microseconds, and PROC 2 before it.
check_qs-bounds_example :
    (0 < scheduler_check_qs 400 both) × (400 + scheduler_check_qs 400 both ≤ 501)
check_qs-bounds_example =
    check_qs-bounds both 400 1 501 refl refl refl refl refl (inl (refl, refl)) (omega arith)

abbrev tick : Tick
tick = record { now_us = 7; sp = 8000; madvise_ok = true }

abbrev no_ctxs : Contexts
no_ctxs p = pure tt

-- PROC 1 waits for a channel that no one will write to.
abbrev waiting : State
waiting = record no_state {
  procs = update no_state.procs 1 (some (a_proc ProcState.chanwait));
  sched = record no_sched { total_q = 1 ∷ [] };
}

stuck-spins_example :
    (scheduler_run (λ _. pure tt) 4 (tick ∷ tick ∷ []) no_ctxs waiting ≡ fault out_of_fuel)
    × (scheduler_check_qs 7 waiting ≡ 0)
unfolding scheduler_running
stuck-spins_example =
    stuck-spins (λ _. pure tt) 4 7 (tick ∷ tick ∷ []) no_ctxs waiting
      (record { none_ready = refl; none_sleeps = refl; none_waits = refl }) refl
