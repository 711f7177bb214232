-- ===== src/Proxc/Unmade.antt =====
-- PROC where an allocation fails. posix_memalign does not set errno, and proc_create returns errno.
use libproxc.Base.{
  ℕ, ◌≡◌, refl, Bool, false, Option, none, some, List, ◌==◌, if◌then◌else◌, elem, Bool-cases, inl,
  inr,
}
use libproxc.Platform.{Platform}
use libproxc.Store.{State, Fault, ret, fault, dangling, assert_failed}
use libproxc.Csp.Build.{csp_create}
use libproxc.Proc.Life.{proc_create}
use libproxc.Proc.Release.{proc_free-proc_create}
use libproxc.Proxc.Trees.{proxc_proc}

module _ ⦃v : Platform⦄ (realloc_ok : ℕ → Bool) (errno fuel fxn : ℕ) (args : List ℕ)
    (s : State) where
  -- What proxc_proc comes to when proc_create has set no PROC.
  abbrev unset : Fault
  unset = if errno == 0 then dangling else assert_failed

  proc-unset :
      (mem stack mem_build : Option ℕ)
      → proc_create mem stack errno fxn s ≡ ret (errno, none) s
      → proxc_proc mem stack mem_build realloc_ok errno fuel fxn args s ≡ fault unset
  unfolding proxc_proc csp_create
  proc-unset mem stack none e = elim (Bool-cases (errno == 0)) [
    | inl zero ↦ rw (e, zero)
    | inr other ↦ rw (e, other)
  ]
  proc-unset mem stack (some b) e = elim (Bool-cases (errno == 0)) [
    | inl zero ↦ rw (e, zero)
    | inr other ↦ rw (e, other)
  ]

  no_stack : (mem : Option ℕ) → proc_create mem none errno fxn s ≡ ret (errno, none) s
  unfolding proc_create
  no_stack none = refl
  no_stack (some p) = refl

  no_memory : (stack : Option ℕ) → proc_create none stack errno fxn s ≡ ret (errno, none) s
  unfolding proc_create
  no_memory stack = refl

  no_builder :
      (p stack : ℕ)
      → s.procs p ≡ none
      → elem p s.sched.total_q ≡ false
      → proxc_proc (some p) (some stack) none realloc_ok errno fuel fxn args s ≡ ret none s
  unfolding proxc_proc csp_create
  no_builder p stack fresh out =
      let (s1, creates, _, frees) = proc_free-proc_create fuel p stack errno fxn s fresh out in
      rw (creates, frees)

  -- An allocation of PROC fails, with any memory for the rest. Without memory for the stack, or for
  -- the PROC, it stops at an assertion if errno is not 0; if errno is 0 it takes the failure for a
  -- success, and uses the pointer to the PROC, which has not been set. Without memory for the builder,
  -- where the PROC's memory was neither a PROC nor in the queue of all PROCs, it returns NULL and
  -- leaves the store as it was.
  pub proc_fails :
      (mem stack_mem mem_build : Option ℕ) (p stack : ℕ)
      → s.procs p ≡ none
      → elem p s.sched.total_q ≡ false
      → (proxc_proc mem none mem_build realloc_ok errno fuel fxn args s
          ≡ fault (if errno == 0 then dangling else assert_failed))
        × (proxc_proc none stack_mem mem_build realloc_ok errno fuel fxn args s
            ≡ fault (if errno == 0 then dangling else assert_failed))
        × (proxc_proc (some p) (some stack) none realloc_ok errno fuel fxn args s ≡ ret none s)
  proc_fails mem stack_mem mem_build p stack fresh out = (
    proc-unset mem none mem_build (no_stack mem),
    proc-unset none stack_mem mem_build (no_memory stack_mem),
    no_builder p stack fresh out,
  )
