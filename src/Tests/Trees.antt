-- ===== src/Tests/Trees.antt =====
-- The theorems on PAR, SEQ, GO and RUN at concrete inputs.
use libproxc.Base.{ℕ, ◌-◌, ◌≡◌, refl, Option, none, some, [], ◌∷◌, update, arith}
use libproxc.Platform.Model.{lists}
use libproxc.Store.{State, ProcState, Builder, proc_build, par_build, seq_build, ret, yielded}
use libproxc.Scheduler.Queues.Fifo.{readied}
use libproxc.Scheduler.Queues.Many.{Addable}
use libproxc.Scheduler.Loop.Turns.{entered}
use libproxc.Csp.Build.{for_each}
use libproxc.Csp.Start.{starts, depth, proc, par, seq, nil, cons, Forest, Stored, StoredAll}
use libproxc.Csp.Finish.{csp_parsebuild}
use libproxc.Csp.Cleanup.{without}
use libproxc.Proxc.Trees.{proxc_par, proxc_seq, proxc_go, proxc_run}
use libproxc.Proxc.Made.{Made, made_build, par_seq-Stored}
use libproxc.Proxc.Run.{started, run_waiting, run-waits}
use libproxc.Proxc.Joined.{par-joins}
use libproxc.Proxc.Called.{made_proc}
use libproxc.Proxc.Current.{at_part}
use libproxc.Proxc.InTurn.{seq-in_turn}
use libproxc.Tests.States.{no_state, no_sched, a_proc, a_build}

abbrev leaf : (p : ℕ) → Builder
leaf p = record (a_build proc_build) { proc = some p }

-- PROC 3 runs; the builders of PROC 1, at 11, and of PROC 2, at 12, have been made.
abbrev store : State
store = record no_state {
  procs =
      update
        (update (update no_state.procs 1 (some (a_proc ProcState.ready))) 2
          (some (a_proc ProcState.ready)))
        3 (some (a_proc ProcState.ready));
  builds = update (update no_state.builds 11 (some (leaf 1))) 12 (some (leaf 2));
  sched = record no_sched { curr_proc = some 3 };
}

abbrev parts : Forest
parts = cons (proc 12 2) nil

par_seq-Stored_example :
    ((f : ℕ → Option Builder) × (proxc_par (some 10) (some 11 ∷ some 12 ∷ []) store
        ≡ ret (some 10) (record store { builds = f }))
      × Made store.builds f 10 (made_build par_build none (11 ∷ 12 ∷ [])) (11 ∷ 12 ∷ [])
      × Stored f (par 10 (cons (proc 11 1) parts)))
    × ((f : ℕ → Option Builder) × (proxc_seq (some 10) (some 11 ∷ some 12 ∷ []) store
          ≡ ret (some 10) (record store { builds = f }))
        × Made store.builds f 10 (made_build seq_build (some 11) (11 ∷ 12 ∷ [])) (11 ∷ 12 ∷ [])
        × Stored f (seq 10 (proc 11 1) parts))
unfolding Stored StoredAll
par_seq-Stored_example =
    par_seq-Stored 10 (proc 11 1) parts store refl
      ((_, refl, refl, refl), ((_, refl, refl, refl), tt)) refl (omega arith)

-- A PAR of the two PROCs.
abbrev held : State
held = record store {
  builds = update store.builds 10 (some (made_build par_build none (11 ∷ 12 ∷ [])));
}

abbrev addable : (p : ℕ) → store.procs p ≡ some (a_proc ProcState.ready) → Addable store.procs [] p
addable p at = record { held = a_proc ProcState.ready; at = at; out = refl }

run-waits_example :
    (proxc_go 2 10 held
      ≡ ret 0 (started held none 10 (made_build par_build none (11 ∷ 12 ∷ [])) (1 ∷ 2 ∷ [])))
    × (proxc_run 2 10 held
        ≡ yielded
            (run_waiting held 3 10 (made_build par_build none (11 ∷ 12 ∷ [])) (1 ∷ 2 ∷ []))
            (λ s'. ret 0 s'))
unfolding Stored StoredAll starts depth
run-waits_example =
    run-waits (par 10 (cons (proc 11 1) parts)) 2 3 held (omega arith)
      (_, refl, refl, refl, ((_, refl, refl, refl), ((_, refl, refl, refl), tt))) refl refl
      (addable 1 refl, (addable 2 refl, tt)) refl refl

abbrev pid : ℕ → ℕ
pid c = c - 10

par-joins_example :
    (made waiting : State) × (proxc_par (some 10) (some 11 ∷ some 12 ∷ []) store
      ≡ ret (some 10) made)
    × (proxc_run 2 10 made ≡ yielded waiting (λ u. ret 0 u))
    × (waiting.sched.ready_q ≡ 1 ∷ 2 ∷ [])
    × (for_each (csp_parsebuild 4) (12 ∷ 11 ∷ []) (record store { builds = waiting.builds })
        ≡ ret tt (without (readied store 3 (a_proc ProcState.ready)) (10 ∷ 11 ∷ 12 ∷ [])))
unfolding starts
par-joins_example =
    par-joins pid 2 10 3 11 12 (12 ∷ []) (11 ∷ []) store store (omega arith) refl
      (
        record { build = leaf 1; at = refl; typed = refl; runs = refl; inner = refl },
        (record { build = leaf 2; at = refl; typed = refl; runs = refl; inner = refl }, tt),
      )
      refl (omega arith) refl (addable 1 refl, (addable 2 refl, tt)) refl refl refl refl refl
      (refl, (refl, tt))

-- PROC 4, with the arguments 7 and 8 and the builder at 14, as the scheduler runs it.
abbrev called : State
called = record no_state {
  procs = update no_state.procs 4 (some (entered (made_proc 4096 9 8192 14 (7 ∷ 8 ∷ []))));
  sched = record no_sched { curr_proc = some 4 };
}

seq-in_turn_example :
    (made waiting : State) × (proxc_seq (some 10) (some 11 ∷ some 12 ∷ []) store
      ≡ ret (some 10) made)
    × (proxc_run 2 10 made ≡ yielded waiting (λ u. ret 0 u))
    × (waiting.sched.ready_q ≡ 1 ∷ [])
    × (waiting.builds ≡ update made.builds 10 (some (at_part 3 (11 ∷ 12 ∷ []) 11 2)))
    × (csp_parsebuild 4 11
          (record store { builds = update made.builds 10 (some (at_part 3 (11 ∷ 12 ∷ []) 11 2)) })
        ≡ ret tt (
            readied
              (record store {
                builds = update made.builds 10 (some (at_part 3 (11 ∷ 12 ∷ []) 12 1));
              })
              2
              (a_proc ProcState.ready)))
    × (csp_parsebuild 4 12
          (record store { builds = update made.builds 10 (some (at_part 3 (11 ∷ 12 ∷ []) 12 1)) })
        ≡ ret tt (without (readied store 3 (a_proc ProcState.ready)) (10 ∷ 11 ∷ 12 ∷ [])))
seq-in_turn_example =
    seq-in_turn pid 1 10 3 11 11 12 12 (12 ∷ []) [] [] (11 ∷ []) store store store (omega arith)
      refl
      (
        record { build = leaf 1; at = refl; typed = refl; runs = refl; inner = refl },
        (record { build = leaf 2; at = refl; typed = refl; runs = refl; inner = refl }, tt),
      )
      refl (omega arith) (addable 1 refl) refl refl refl refl refl refl refl refl
