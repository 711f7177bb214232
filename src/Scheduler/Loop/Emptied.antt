-- ===== src/Scheduler/Loop/Emptied.antt =====
-- scheduler_free, where the PROCs that are left have no builder, or were started by GO one by one.
use libproxc.Base.{
  ℕ, zero, suc, ◌≤◌, ◌≡◌, refl, sym, ap, ◌∙◌, true, false, some, none, Option, List, [], ◌∷◌, arith,
  ◌==◌, ==_refl, ==_iff, elem, erase, ne_of_elem, distinct, distinct-uncons, length, head?,
  Bool-cases, inl, inr, All, All-mono,
}
use libproxc.Platform.{Platform}
use libproxc.Store.{State, Proc, Builder, M, pure, ◌>>◌, ret}
use libproxc.Proc.Life.{proc_free}
use libproxc.Proc.Owned.{Owned, Owned-rest, unbuilt, unbuilt-none, let_go, proc_free-let_go}
use libproxc.Scheduler.Loop.{scheduler_free}

-- A PROC that is allocated, with no builder, or one that GO has started.
abbrev pub Releasable : State → ℕ → Type 0
Releasable s p = (proc : Proc) × (s.procs p ≡ some proc) × Owned s.builds p proc.proc_build

-- The store when the PROCs of `q` and no others have been released, with their builders.
pub record Emptied (s s' : State) (q : List ℕ) : Type 0 where
  pub empty : s'.sched.total_q ≡ []
  pub gone : (a : ℕ) → elem a q ≡ true → s'.procs a ≡ none
  pub kept : (a : ℕ) → elem a q ≡ false → s'.procs a ≡ s.procs a
  pub freed :
      (a b : ℕ) (proc : Proc)
      → elem a q ≡ true
      → s.procs a ≡ some proc
      → proc.proc_build ≡ some b
      → s'.builds b ≡ none
  pub unmade : (b : ℕ) → s.builds b ≡ none → s'.builds b ≡ none

pub same_proc :
    {o : Option Proc} {x y : Proc} → o ≡ some x → o ≡ some y → x.proc_build ≡ y.proc_build
same_proc {x} h k =
    ap (λ (q : Option Proc). elim q [ none ↦ x.proc_build | some z ↦ z.proc_build ]) (sym h ∙ k)

unbuilt-own :
    (builds : ℕ → Option Builder) (o : Option ℕ) (b : ℕ) → o ≡ some b → unbuilt o builds b ≡ none
unbuilt-own builds none b e = absurd (cc (e))
unbuilt-own builds (some c) b e =
    let eq : c ≡ b = ap (λ (q : Option ℕ). elim q [ none ↦ c | some y ↦ y ]) e in
    let here : (c == b) ≡ true = (==_iff c b).1 eq in rw (here)

Emptied-none : (s : State) → s.sched.total_q ≡ [] → Emptied s s []
Emptied-none s e = record {
  empty = e;
  gone = λ a m. absurd (cc (m));
  kept = λ a m. refl;
  freed = λ a b x m at h. absurd (cc (m));
  unmade = λ b h. h;
}

Emptied-cons :
    (s s' : State) (p : ℕ) (q : List ℕ) {proc : Proc}
    → s.procs p ≡ some proc
    → elem p q ≡ false
    → Emptied (let_go s p proc.proc_build) s' q
    → Emptied s s' (p ∷ q)
Emptied-cons s s' p q {proc} at out h = record {
  empty = h.empty;
  gone = λ a m. elim (Bool-cases (elem a q)) [
    | inl later ↦ h.gone a later
    | inr not_later ↦
        let eq : (p == a) ≡ true = ground (arith, m, not_later) in h.kept a not_later ∙ rw eq
  ];
  kept =
      λ a m. let ne : (p == a) ≡ false = ground (arith, m) in h.kept a (ground (arith, m)) ∙ rw ne;
  freed = λ a b x m at_x e. elim (Bool-cases (p == a)) [
    | inl here ↦
        let at_p : s.procs p ≡ some x = ap s.procs ((==_iff p a).0 here) ∙ at_x in
        h.unmade b (unbuilt-own s.builds proc.proc_build b (same_proc at at_p ∙ e))
    | inr other ↦ h.freed a b x (ground (arith, m, other)) (rw (other) at_x) e
  ];
  unmade = λ b e. h.unmade b (unbuilt-none s.builds proc.proc_build b e);
}

module _ ⦃v : Platform⦄ where
  Releasable-rest :
      (s : State) (p : ℕ) (q : List ℕ) (proc : Proc)
      → Owned s.builds p proc.proc_build
      → elem p q ≡ false
      → All (Releasable s) q
      → All (Releasable (let_go s p proc.proc_build)) q
  Releasable-rest s p q proc own out = All-mono q λ x m w.
      let (pr, at, h) = w in
      let ne = ne_of_elem p x q out m in
      (pr, rw (ne) at, Owned-rest s.builds p proc.proc_build x pr.proc_build ne own h)

  free-next :
      (fuel rounds p : ℕ) (s s' : State)
      → head? s.sched.total_q ≡ some p
      → proc_free fuel (some p) s ≡ ret tt s'
      → scheduler_free fuel (suc rounds) s ≡ scheduler_free fuel rounds s'
  unfolding scheduler_free
  free-next fuel rounds p s s' first frees =
      let next : Option ℕ → M (Unit {0}) = λ o. elim o as (λ _. M (Unit {0})) [
        | none ↦ pure tt
        | some a ↦ proc_free fuel (some a) >> scheduler_free fuel rounds
      ] in
      ap (λ o. next o s) first ∙ rw frees

  -- The PROCs of the queue of all PROCs stand in it once, each with no builder or with one that GO has
  -- started. Then scheduler_free, in as many rounds as there are PROCs, does not fault, and releases them
  -- all, with their builders, and no others.
  pub scheduler_free-all :
      (fuel rounds : ℕ) (q : List ℕ) (s : State)
      → s.sched.total_q ≡ q
      → distinct q ≡ true
      → All (Releasable s) q
      → length q ≤ rounds
      → (s' : State) × (scheduler_free (suc (suc fuel)) rounds s ≡ ret tt s') × Emptied s s' q
  unfolding scheduler_free
  scheduler_free-all fuel zero [] s e d w le = (s, rw e, Emptied-none s e)
  scheduler_free-all fuel (suc rounds) [] s e d w le = (s, rw e, Emptied-none s e)
  scheduler_free-all fuel zero (p ∷ q) s e d w le = absurd (omega arith)
  scheduler_free-all fuel (suc rounds) (p ∷ q) s e d ((proc, at, own), w) le =
      let (out, once) = distinct-uncons p q d in
      let t : State = let_go s p proc.proc_build in
      let erased : erase p s.sched.total_q ≡ q = rw (e, ==_refl p) in
      let linked : elem p s.sched.total_q ≡ true = rw (e, ==_refl p) in
      let (s', frees, empties) =
        scheduler_free-all fuel rounds q t erased once (Releasable-rest s p q proc own out w)
          (omega arith) in
      (
        s',
        free-next (suc (suc fuel)) rounds p s t (ap head? e)
              (proc_free-let_go fuel p s at own linked)
            ∙ frees,
        Emptied-cons s s' p q at out empties,
      )
