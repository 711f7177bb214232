-- ===== src/Tests/Parts.antt =====
-- The theorems on PROCs, trees and the scheduler at concrete inputs.
use libproxc.Base.{
  inr, leb, List, ◌++◌, ℕ, ◌≡◌, refl, true, none, some, [], ◌∷◌, update, arith, elem,
}
use libproxc.Platform.Model.{lists}
use libproxc.Store.{dangling, State, Proc, ProcState, proc_build, seq_build, ret, fault}
use libproxc.Scheduler.Queues.{scheduler_addready}
use libproxc.Scheduler.Queues.Fifo.{readied}
use libproxc.Scheduler.Wakeup.{wakeup_procs}
use libproxc.Scheduler.Wakeup.Woken.{Woken}
use libproxc.Scheduler.Wakeup.Rounds.{wakeup-Woken}
use libproxc.Scheduler.Sleep.{sleep_us_at}
use libproxc.Proc.Args.{proc_setargs}
use libproxc.Proc.Args.Copied.{Holds, with_args, setargs-Holds}
use libproxc.Csp.Build.{for_each, csp_runbuild}
use libproxc.Csp.Start.{Tree, proc, seq, nil, cons, starts, depth, Stored, runbuild-starts}
use libproxc.Csp.Finish.{csp_cleanupbuild}
use libproxc.Csp.Standing.{nodes, Standing}
use libproxc.Csp.Finish.{csp_parsebuild}
use libproxc.Csp.Resume.{parsebuild-resumes}
use libproxc.Csp.Cleanup.{without, cleanupbuild-frees}
use libproxc.Proxc.Trees.{proxc_proc}
use libproxc.Proxc.Unmade.{proc_fails}
use libproxc.Proc.Release.{proc_free-proc_create}
use libproxc.Proc.Life.{proc_create, proc_free}
use libproxc.Tests.States.{no_sched, no_state, a_proc, a_build}

-- A PROC that wakes up at the given time, or never.
abbrev sleeper : ℕ → Proc
sleeper us = record (a_proc ProcState.running) { sleep_us = us; args = 7 ∷ 8 ∷ [] }

-- PROC 1 runs; PROC 2 sleeps until 500.
abbrev store : State
store = record no_state {
  procs = update (update no_state.procs 1 (some (sleeper 500))) 2 (some (sleeper 500));
  sched = record no_sched { curr_proc = some 1; sleep_rb = 2 ∷ []; sleep_num = 1 };
}

-- At 600 the time of PROC 2 is up.
wakeup-Woken_example :
    (s' : State) × (ps : List ℕ) × (left : List ℕ) × (wakeup_procs 600 1 store ≡ ret tt s')
    × (2 ∷ [] ≡ ps ++ left)
    × ((q : ℕ) → elem q (2 ∷ []) ≡ true → elem q ps ≡ leb (sleep_us_at store q) 600)
    × Woken store s' ps left
wakeup-Woken_example =
    wakeup-Woken 600 store refl refl (omega arith)
      (record { proc = sleeper 500; at = refl; out = refl }, tt)

setargs-Holds_example :
    (s' : State) × (proc_setargs (λ n. true) 0 1 (9 ∷ []) store ≡ ret 0 s')
    × Holds store s' 1 (with_args (sleeper 500) (9 ∷ []))
setargs-Holds_example = setargs-Holds (λ n. true) 0 (λ n. refl) store 1 (9 ∷ []) refl

-- SEQ at 10 of the PROC 1, at 11, and the PROC 2, at 12.
abbrev tree : Tree
tree = seq 10 (proc 11 1) (cons (proc 12 2) nil)

abbrev built : State
built = record store {
  builds =
      update
        (update (update no_state.builds 12 (some (record (a_build proc_build) { proc = some 2 })))
          11 (some (record (a_build proc_build) { proc = some 1 })))
        10
        (some (record (a_build seq_build) {
          num_childs = 2;
          child_q = 11 ∷ 12 ∷ [];
          curr_build = some 11;
        }));
}

runbuild-starts_example : csp_runbuild 2 10 built ≡ for_each scheduler_addready (1 ∷ []) built
unfolding starts depth Stored
runbuild-starts_example =
    runbuild-starts tree 2 built (omega arith)
      (_, refl, refl, refl, refl, (_, refl, refl, refl), ((_, refl, refl, refl), tt))

cleanupbuild-frees_example :
    csp_cleanupbuild 2 10 built ≡ ret tt (without built (10 ∷ 11 ∷ 12 ∷ []))
unfolding nodes depth Standing
cleanupbuild-frees_example =
    cleanupbuild-frees tree 2 built (omega arith) refl
      (_, refl, refl, refl, ((_, refl, refl), ((_, refl, refl), tt)))

-- PROC 2, at 12, is the last part of the SEQ, on which PROC 1 waits.
abbrev at_end : State
at_end = record built {
  builds =
      update
        (update built.builds 12
          (some (record (a_build proc_build) { proc = some 2; parent = some 10 })))
        10
        (some (record (a_build seq_build) {
          num_childs = 1;
          child_q = 11 ∷ 12 ∷ [];
          curr_build = some 12;
          is_root = true;
          run_proc = some 1;
        }));
}

parsebuild-resumes_example :
    csp_parsebuild 4 12 at_end
    ≡ ret tt (without (readied at_end 1 (sleeper 500)) (10 ∷ 11 ∷ 12 ∷ []))
unfolding nodes depth Standing
parsebuild-resumes_example =
    parsebuild-resumes tree 2 12 1 at_end (omega arith) refl
      (_, refl, refl, refl, ((_, refl, refl), ((_, refl, refl), tt))) refl refl refl refl refl
      (inr refl) refl refl refl refl refl

proc_fails_example :
    (proxc_proc (some 3) none (some 13) (λ n. true) 0 4 5 (7 ∷ []) store ≡ fault dangling)
    × (proxc_proc none (some 4096) (some 13) (λ n. true) 0 4 5 (7 ∷ []) store ≡ fault dangling)
    × (proxc_proc (some 5) (some 4096) none (λ n. true) 0 4 5 (7 ∷ []) store ≡ ret none store)
proc_fails_example =
    proc_fails (λ n. true) 0 4 5 (7 ∷ []) store (some 3) (some 4096) (some 13) 5 4096 refl refl

proc_free-proc_create_example :
    (s1 : State) × (proc_create (some 5) (some 4096) 0 9 no_state ≡ ret (0, some 5) s1)
    × (s1.sched.total_q ≡ 5 ∷ [])
    × (proc_free 4 (some 5) s1 ≡ ret tt no_state)
proc_free-proc_create_example = proc_free-proc_create 4 5 4096 0 9 no_state refl refl
