-- ===== src/Proxc/Trees.antt =====
-- proxc_proc, proxc_par, proxc_seq, proxc_go and proxc_run of proxc.c. The arguments before the
-- terminator PROXC_NULL are a list.
use libproxc.Base.{ℕ, Bool, true, Option, none, some, List, head?}
use libproxc.Platform.{Platform}
use libproxc.Store.{
  assert_0, ProcState, proc_build, par_build, seq_build, M, pure, ◌>>=◌, ◌>>◌, deref, load_proc,
  put_proc, load_sched, load_build, put_build,
}
use libproxc.Scheduler.Queues.{proc_yield}
use libproxc.Csp.Build.{csp_create, csp_insertchilds, csp_runbuild}
use libproxc.Proc.Args.{proc_setargs}
use libproxc.Proc.Life.{proc_create, proc_free}

module _ ⦃v : Platform⦄ where
  -- `mem` and `stack` are for the PROC, `mem_build` for its builder. The pointer to the PROC, where
  -- proc_create does not set it, is undefined, and its use a fault.
  unfoldable pub proxc_proc :
      (mem stack mem_build : Option ℕ) (realloc_ok : ℕ → Bool) (errno fuel : ℕ)
      → (fxn : ℕ) (args : List ℕ) → M (Option ℕ)
  unfolding proc_create proc_free csp_create proc_setargs
  proxc_proc mem stack mem_build realloc_ok errno fuel fxn args = do
    (ret, proc) ← proc_create mem stack errno fxn
    assert_0 ret
    builder ← csp_create mem_build proc_build
    elim builder [
      | none ↦ do p ← deref proc; proc_free fuel (some p); pure none
      | some b ↦ do
        p ← deref proc
        ret' ← proc_setargs realloc_ok errno p args
        assert_0 ret'
        build ← load_build b
        put_build b (some (record build { proc = some p }))
        pr ← load_proc p
        put_proc p (some (record pr { proc_build = some b }))
        pure (some b)
    ]

  unfoldable pub proxc_par : (mem : Option ℕ) → List (Option ℕ) → M (Option ℕ)
  unfolding csp_create csp_insertchilds
  proxc_par mem childs = do
    builder ← csp_create mem par_build
    elim builder [ none ↦ pure none | some b ↦ do csp_insertchilds b childs; pure (some b) ]

  unfoldable pub proxc_seq : (mem : Option ℕ) → List (Option ℕ) → M (Option ℕ)
  unfolding csp_create csp_insertchilds
  proxc_seq mem childs = do
    builder ← csp_create mem seq_build
    elim builder [
      | none ↦ pure none
      | some b ↦ do
        csp_insertchilds b childs
        build ← load_build b
        put_build b (some (record build { curr_build = head? build.child_q }))
        pure (some b)
    ]

  unfoldable pub proxc_go : (fuel root : ℕ) → M ℕ
  unfolding csp_runbuild
  proxc_go fuel root = do
    build ← load_build root
    put_build root (some (record build { is_root = true; run_proc = none }))
    csp_runbuild fuel root
    pure 0

  unfoldable pub proxc_run : (fuel root : ℕ) → M ℕ
  unfolding csp_runbuild proc_yield
  proxc_run fuel root = do
    sched ← load_sched
    build ← load_build root
    put_build root (some (record build { is_root = true; run_proc = sched.curr_proc }))
    csp_runbuild fuel root
    sched' ← load_sched
    self ← deref sched'.curr_proc
    proc ← load_proc self
    put_proc self (some (record proc { state = ProcState.runwait }))
    proc_yield
    pure 0
