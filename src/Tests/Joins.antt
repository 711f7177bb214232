-- ===== src/Tests/Joins.antt =====
-- The theorems on the ends of the parts of a tree at concrete inputs.
use libproxc.Base.{ℕ, ◌≡◌, refl, true, some, [], ◌∷◌, update, arith}
use libproxc.Platform.Model.{lists}
use libproxc.Store.{
  State, Proc, ProcState, BuildType, Builder, proc_build, par_build, seq_build, ret,
}
use libproxc.Scheduler.Queues.Fifo.{readied}
use libproxc.Csp.Build.{for_each}
use libproxc.Csp.Start.{Tree, proc, par, nil, cons, depth}
use libproxc.Csp.Finish.{next_of, csp_parsebuild}
use libproxc.Csp.Standing.{nodes, Standing}
use libproxc.Csp.Cleanup.{without}
use libproxc.Csp.Join.{Part, parts-join}
use libproxc.Csp.Next.{moved, parsebuild-moved}
use libproxc.Tests.States.{no_state, a_proc, a_build}

-- The builder of the PROC `p`, under the builder at 10.
abbrev leaf : (p : ℕ) → Builder
leaf p = record (a_build proc_build) { proc = some p; parent = some 10 }

abbrev top : BuildType → Builder
top type = record (a_build type) {
  num_childs = 2;
  child_q = 11 ∷ 12 ∷ [];
  curr_build = some 11;
  is_root = true;
  run_proc = some 3;
}

abbrev waiter : Proc
waiter = a_proc ProcState.ready

-- PROC 3 waits on a PAR or a SEQ of PROC 1, at 11, and PROC 2, at 12.
abbrev store : BuildType → State
store type = record no_state {
  procs = update (update no_state.procs 2 (some waiter)) 3 (some waiter);
  builds =
      update (update (update no_state.builds 11 (some (leaf 1))) 12 (some (leaf 2))) 10
        (some (top type));
}

abbrev part : (type : BuildType) → Part (store type).builds 10 11
part type = record {
  leaf = leaf 1;
  at = refl;
  typed = refl;
  inner = refl;
  under = refl;
  below = refl;
}

abbrev part' : (type : BuildType) → Part (store type).builds 10 12
part' type = record {
  leaf = leaf 2;
  at = refl;
  typed = refl;
  inner = refl;
  under = refl;
  below = refl;
}

abbrev tree : Tree
tree = par 10 (cons (proc 11 1) (cons (proc 12 2) nil))

parts-join_example :
    for_each (csp_parsebuild 4) (12 ∷ 11 ∷ []) (store par_build)
    ≡ ret tt (without (readied (store par_build) 3 waiter) (10 ∷ 11 ∷ 12 ∷ []))
unfolding nodes depth Standing
parts-join_example =
    parts-join tree 2 3 12 (11 ∷ []) (store par_build) {x = top par_build} {proc = waiter}
      (omega arith) refl (_, refl, refl, refl, ((_, refl, refl), ((_, refl, refl), tt))) refl refl
      refl (omega arith) refl refl refl refl (part' par_build, (part par_build, tt))

next_is_12 : next_of 11 (11 ∷ 12 ∷ []) ≡ some 12
unfolding next_of
next_is_12 = refl

parsebuild-moved_example :
    csp_parsebuild 3 11 (store seq_build)
    ≡ ret tt (moved (store seq_build) 10 (top seq_build) 1 12 2 waiter)
parsebuild-moved_example =
    parsebuild-moved 0 10 11 11 12 2 0 (store seq_build) (part seq_build) refl refl refl
      (omega arith) refl next_is_12 refl refl refl refl refl refl
