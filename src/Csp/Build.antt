-- ===== src/Csp/Build.antt =====
-- Making a tree and starting it: csp_create, csp_free, csp_insertchilds and csp_runbuild of csp.c.
-- `mem` is what malloc returns, NULL being `none`. The recursion of csp_runbuild goes down a tree of
-- pointers; it is bounded by `fuel`, and a tree of depth d needs d.
use libproxc.Base.{ℕ, zero, suc, ◌+◌, false, Option, none, some, List, [], ◌∷◌}
use libproxc.Platform.{Platform}
use libproxc.Platform.Links.{tailq_insert_tail}
use libproxc.Store.{
  BuildType, proc_build, par_build, seq_build, Builder, M, pure, fail, out_of_fuel, ◌>>=◌, ◌>>◌,
  deref, load_build, put_build,
}
use libproxc.Scheduler.Queues.{scheduler_addready}
use libproxc.Scheduler.Sleep.{u64}

-- The members behind the header, which malloc leaves undefined, are NULL, 0 and empty here.
unfoldable pub csp_create : (mem : Option ℕ) → BuildType → M (Option ℕ)
csp_create none type = pure none
csp_create (some b) type = do
  put_build b (
      some (record {
        type = type;
        parent = none;
        is_root = false;
        run_proc = none;
        proc = none;
        num_childs = 0;
        child_q = [];
        curr_build = none;
      }))
  pure (some b)

unfoldable pub csp_free : Option ℕ → M (Unit {0})
csp_free none = pure tt
csp_free (some b) = do load_build b; put_build b none

-- TAILQ_FOREACH
unfoldable pub for_each : (ℕ → M (Unit {0})) → List ℕ → M (Unit {0})
for_each act [] = pure tt
for_each act (x ∷ xs) = do act x; for_each act xs

module _ ⦃v : Platform⦄ where
  -- The loop over the arguments before the terminator. A child that is NULL ends it.
  unfoldable pub csp_insertchilds : (builder : ℕ) → List (Option ℕ) → M ℕ
  csp_insertchilds b [] = pure 0
  csp_insertchilds b (none ∷ rest) = pure 0
  csp_insertchilds b (some c ∷ rest) = do
    child ← load_build c
    put_build c (some (record child { parent = some b }))
    build ← load_build b
    q ← tailq_insert_tail build.child_q c
    put_build b (some (record build { num_childs = u64 (build.num_childs + 1); child_q = q }))
    csp_insertchilds b rest

  -- The cases of csp_runbuild; `run` is the recursive call.
  unfoldable pub runbuild_as : (run : ℕ → M (Unit {0})) → BuildType → Builder → M (Unit {0})
  unfolding for_each
  runbuild_as run proc_build build = do p ← deref build.proc; scheduler_addready p
  runbuild_as run par_build build = for_each run build.child_q
  runbuild_as run seq_build build = do c ← deref build.curr_build; run c

  unfoldable pub csp_runbuild : (fuel : ℕ) → ℕ → M (Unit {0})
  unfolding runbuild_as
  csp_runbuild zero b = fail out_of_fuel
  csp_runbuild (suc fuel) b = do
    build ← load_build b
    runbuild_as (csp_runbuild fuel) build.type build
