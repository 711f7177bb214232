-- ===== src/Csp/Finish.antt =====
-- The end of a PROC in its tree: csp_cleanupbuild and csp_parsebuild of csp.c. Both recursions, down
-- a tree and up to its root, are bounded by `fuel`.
use libproxc.Base.{
  ℕ, zero, suc, ◌==◌, Bool, true, false, Option, none, some, List, [], ◌∷◌, if◌then◌else◌, head?,
  length,
}
use libproxc.Platform.{Platform}
use libproxc.Platform.Links.{tailq_remove}
use libproxc.Store.{
  BuildType, proc_build, par_build, seq_build, Builder, M, pure, fail, out_of_fuel, ◌>>=◌, ◌>>◌,
  deref, assert_notnull, load_build, put_build,
}
use libproxc.Scheduler.Queues.{scheduler_addready}
use libproxc.Scheduler.Sleep.{dec64}
use libproxc.Csp.Build.{csp_free, csp_runbuild}

-- TAILQ_NEXT: the node behind `x`.
unfoldable pub next_of : ℕ → List ℕ → Option ℕ
next_of x [] = none
next_of x (y ∷ ys) = let rest = next_of x ys in if x == y then head? ys else rest

module _ ⦃v : Platform⦄ where
  -- `while (!TAILQ_EMPTY(childQ))`, each round unlinking the first child; `clean` is the recursive
  -- call. As many rounds as there are children are enough.
  unfoldable pub cleanup_childs : (clean : ℕ → M (Unit {0})) → (rounds b : ℕ) → M (Unit {0})
  cleanup_childs clean zero b = do
    build ← load_build b
    elim (head? build.child_q) [ none ↦ pure tt | some _ ↦ fail out_of_fuel ]
  cleanup_childs clean (suc rounds) b = do
    build ← load_build b
    elim (head? build.child_q) [
      | none ↦ pure tt
      | some c ↦ do
        q ← tailq_remove build.child_q c
        put_build b (some (record build { child_q = q }))
        clean c
        cleanup_childs clean rounds b
    ]

  unfoldable pub cleanup_as :
      (clean : ℕ → M (Unit {0})) → BuildType → Builder → (b : ℕ) → M (Unit {0})
  unfolding cleanup_childs
  cleanup_as clean proc_build build b = pure tt
  cleanup_as clean par_build build b = cleanup_childs clean (length build.child_q) b
  cleanup_as clean seq_build build b = cleanup_childs clean (length build.child_q) b

  unfoldable pub csp_cleanupbuild : (fuel : ℕ) → ℕ → M (Unit {0})
  unfolding cleanup_as csp_free
  csp_cleanupbuild zero b = fail out_of_fuel
  csp_cleanupbuild (suc fuel) b = do
    build ← load_build b
    cleanup_as (csp_cleanupbuild fuel) build.type build b
    csp_free (some b)

  -- The switch of csp_parsebuild: the count of a PAR or a SEQ goes down, and a SEQ that is not at its
  -- end starts its next child. The result is `build_done`.
  unfoldable pub parse_as : (fuel : ℕ) → BuildType → Builder → (b : ℕ) → M Bool
  unfolding next_of csp_runbuild
  parse_as fuel proc_build build b = pure true
  parse_as fuel par_build build b = do
    put_build b (some (record build { num_childs = dec64 build.num_childs }))
    pure (dec64 build.num_childs == 0)
  parse_as fuel seq_build build b = do
    put_build b (some (record build { num_childs = dec64 build.num_childs }))
    if dec64 build.num_childs == 0 then pure true else do
      curr ← deref build.curr_build
      c ← assert_notnull (next_of curr build.child_q)
      csp_runbuild fuel c
      build' ← load_build b
      put_build b (some (record build' { curr_build = some c }))
      pure false

  -- What follows when a part is done: at the root, the PROC that waits in RUN is resumed and the tree
  -- is freed; elsewhere the parent is told. `up` is the recursive call.
  unfoldable pub build_done : (up : ℕ → M (Unit {0})) → (fuel b : ℕ) → M (Unit {0})
  unfolding csp_cleanupbuild
  build_done up fuel b = do
    build ← load_build b
    if build.is_root
        then (do
          elim build.run_proc [ none ↦ pure tt | some p ↦ scheduler_addready p ]
          csp_cleanupbuild fuel b)
        else do parent ← assert_notnull build.parent; up parent

  unfoldable pub csp_parsebuild : (fuel : ℕ) → ℕ → M (Unit {0})
  unfolding parse_as build_done
  csp_parsebuild zero b = fail out_of_fuel
  csp_parsebuild (suc fuel) b = do
    build ← load_build b
    done ← parse_as fuel build.type build b
    if done then build_done (csp_parsebuild fuel) fuel b else pure tt
