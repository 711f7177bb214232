-- ===== src/Proc/Release.antt =====
-- proc_free undoes proc_create.
use libproxc.Base.{
  ℕ, ◌≡◌, refl, ap, sym, ◌∙◌, fun_ext, true, false, Option, none, some, List, [], ◌∷◌, ◌++◌, arith,
  ◌==◌, ==_refl, ==_iff, elem, erase, erase-snoc, elem-append, update, Bool-cases, inl, inr,
}
use libproxc.Platform.{Platform}
use libproxc.Platform.Links.{tailq_insert_tail_lem, tailq_remove_lem}
use libproxc.Store.{State, Proc, ProcState, ret}
use libproxc.Proc.Life.{proc_create, proc_free}

-- The store without the PROC `p`.
abbrev pub released : State → (p : ℕ) → State
released s p = record s {
  procs = update s.procs p none;
  sched = record s.sched { total_q = erase p s.sched.total_q };
}

-- The store with the new PROC `p`.
abbrev pub created : State → (p : ℕ) → Proc → State
created s p proc = record s {
  procs = update s.procs p (some proc);
  sched = record s.sched { total_q = s.sched.total_q ++ p ∷ [] };
}

abbrev pub fresh_proc : (stack fxn stack_size : ℕ) → Proc
fresh_proc stack fxn stack_size = record {
  ctx_fresh = true;
  state = ProcState.ready;
  fxn = fxn;
  args = [];
  stack_ptr = stack;
  stack_size = stack_size;
  stack_used = 0;
  sleep_us = 0;
  proc_build = none;
}

module _ ⦃v : Platform⦄ where
  pub proc_free-released :
      (fuel p : ℕ) (s : State) {proc : Proc}
      → s.procs p ≡ some proc
      → proc.proc_build ≡ none
      → elem p s.sched.total_q ≡ true
      → proc_free fuel (some p) s ≡ ret tt (released s p)
  unfolding proc_free
  proc_free-released fuel p s at no_build linked =
      rw (at, tailq_remove_lem s.sched.total_q p, linked, no_build)

  elem-snoc : (a : ℕ) (xs : List ℕ) → elem a (xs ++ a ∷ []) ≡ true
  elem-snoc a xs = ground (arith, elem-append a xs (a ∷ []))

  restored :
      (s : State) (p : ℕ) (proc : Proc)
      → s.procs p ≡ none
      → elem p s.sched.total_q ≡ false
      → released (created s p proc) p ≡ s
  restored s p proc fresh out =
      let same : update (update s.procs p (some proc)) p none ≡ s.procs = fun_ext λ a.
        elim (Bool-cases (p == a)) [
          | inl here ↦ rw here (sym fresh ∙ ap s.procs ((==_iff p a).0 here))
          | inr other ↦ rw other
        ] in
      ap
        (λ (f : ℕ → Option Proc). record s {
          procs = f;
          sched = record s.sched { total_q = erase p (s.sched.total_q ++ p ∷ []) };
        })
        same
      ∙ ap (λ (q : List ℕ). record s { sched = record s.sched { total_q = q } })
          (erase-snoc p s.sched.total_q out)

  -- What proc_create makes, on a store that has neither a PROC at `p` nor `p` in its queue of all
  -- PROCs, is undone by proc_free: the store is what it was.
  pub proc_free-proc_create :
      (fuel p stack errno fxn : ℕ) (s : State)
      → s.procs p ≡ none
      → elem p s.sched.total_q ≡ false
      → (s1 : State) × (proc_create (some p) (some stack) errno fxn s ≡ ret (0, some p) s1)
        × (s1.sched.total_q ≡ s.sched.total_q ++ p ∷ [])
        × (proc_free fuel (some p) s1 ≡ ret tt s)
  unfolding proc_create
  proc_free-proc_create fuel p stack errno fxn s fresh out =
      let proc = fresh_proc stack fxn s.sched.stack_size in
      let s1 : State = created s p proc in
      (
        s1,
        rw (tailq_insert_tail_lem s.sched.total_q p, out),
        refl,
        proc_free-released fuel p s1 {proc = proc} (rw (==_refl p)) refl
              (elem-snoc p s.sched.total_q)
            ∙ ap (λ t. ret tt t) (restored s p proc fresh out),
      )
