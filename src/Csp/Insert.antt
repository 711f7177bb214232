-- ===== src/Csp/Insert.antt =====
-- csp_insertchilds puts the childs of a PAR or a SEQ into its queue, and tells each its parent.
use libproxc.Base.{
  ℕ, suc, ◌+◌, ◌^◌, ◌<◌, ◌≡◌, refl, ap, sym, ◌∙◌, true, false, Option, none, some, List, [], ◌∷◌,
  ◌++◌, arith, ◌==◌, ==_refl, ==_iff, Bool-cases, inl, inr, elem, elem-append, ne_of_elem, distinct,
  distinct-uncons, length, update, All, All-mono, append-nil, append_assoc,
}
use mathlib.Core.Path.{subst}
use libproxc.Platform.{Platform}
use libproxc.Platform.Links.{tailq_insert_tail_lem}
use libproxc.Store.{State, Builder, ret}
use libproxc.Scheduler.Sleep.{u64}
use libproxc.Csp.Build.{csp_insertchilds}

-- The arguments that are the builders `cs`.
abbrev pub arguments : List ℕ → List (Option ℕ)
arguments [] = []
arguments (c ∷ cs) = some c ∷ arguments cs

abbrev pub adopted : (b : ℕ) → Option Builder → Option Builder
adopted b none = none
adopted b (some x) = some (record x { parent = some b })

abbrev pub Allocated : (ℕ → Option Builder) → ℕ → Type 0
Allocated builds c = (y : Builder) × (builds c ≡ some y)

-- The builder with the childs `cs` behind those that it has.
abbrev pub with_childs : Builder → List ℕ → Builder
with_childs x cs = record x {
  num_childs = u64 (x.num_childs + length cs);
  child_q = x.child_q ++ cs;
}

-- The builders after the builder `b` has got the childs `cs`.
pub record Adopted (f f' : ℕ → Option Builder) (b : ℕ) (x : Builder) (cs : List ℕ) : Type 0 where
  pub own : f' b ≡ some (with_childs x cs)
  pub childs : (c : ℕ) → elem c cs ≡ true → f' c ≡ adopted b (f c)
  pub kept : (c : ℕ) → elem c cs ≡ false → (b == c) ≡ false → f' c ≡ f c

with_childs-snoc :
    (x : Builder) (c : ℕ) (cs : List ℕ)
    → with_childs
        (record x { num_childs = u64 (x.num_childs + 1); child_q = x.child_q ++ c ∷ [] })
        cs
      ≡ with_childs x (c ∷ cs)
with_childs-snoc x c cs =
    ap (λ (n : ℕ). record x { num_childs = n; child_q = (x.child_q ++ c ∷ []) ++ cs }) (omega arith)
    ∙ ap
        (λ (q : List ℕ). record x {
          num_childs = u64 (x.num_childs + suc (length cs));
          child_q = q;
        })
        (append_assoc x.child_q (c ∷ []) cs)

with_childs-nil : (x : Builder) → x.num_childs < 2 ^ 64 → x ≡ with_childs x []
with_childs-nil x small =
    ap (λ (n : ℕ). record x { num_childs = n }) (omega arith)
    ∙ ap (λ (q : List ℕ). record x { num_childs = u64 (x.num_childs + 0); child_q = q })
        (sym (append-nil x.child_q))

module _ ⦃v : Platform⦄ where
  abbrev one_more : (ℕ → Option Builder) → (b c : ℕ) → Builder → Builder → ℕ → Option Builder
  one_more f b c x y =
      update (update f c (some (record y { parent = some b }))) b
        (some (record x { num_childs = u64 (x.num_childs + 1); child_q = x.child_q ++ c ∷ [] }))

  insert-next :
      (s : State) (b c : ℕ) (cs : List (Option ℕ)) {x y : Builder}
      → s.builds b ≡ some x
      → s.builds c ≡ some y
      → (c == b) ≡ false
      → elem c x.child_q ≡ false
      → csp_insertchilds b (some c ∷ cs) s
        ≡ csp_insertchilds b cs (record s { builds = one_more s.builds b c x y })
  unfolding csp_insertchilds
  insert-next s b c cs {x} at at_c other out =
      rw (at_c, other, at, tailq_insert_tail_lem x.child_q c, out)

  Adopted-next :
      (f f' : ℕ → Option Builder) (b c : ℕ) (cs : List ℕ) (x y : Builder)
      → f c ≡ some y
      → (c == b) ≡ false
      → elem c cs ≡ false
      → Adopted
          (one_more f b c x y)
          f'
          b
          (record x { num_childs = u64 (x.num_childs + 1); child_q = x.child_q ++ c ∷ [] })
          cs
      → elem b cs ≡ false
      → Adopted f f' b x (c ∷ cs)
  Adopted-next f f' b c cs x y at other out h b_out =
      let this : (b == c) ≡ false = ground (arith, other) in
      record {
        own = h.own ∙ ap (λ z. some z) (with_childs-snoc x c cs);
        childs = λ d m. elim (Bool-cases (c == d)) [
          | inl here ↦
              let own : f' c ≡ adopted b (f c) = h.kept c out this ∙ rw (this, ==_refl c, at) in
              subst (λ e. f' e ≡ adopted b (f e)) ((==_iff c d).0 here) own
          | inr ne ↦
              let m' : elem d cs ≡ true = ground (arith, m, ne) in
              h.childs d m' ∙ ap (adopted b) (rw (ne_of_elem b d cs b_out m', ne))
        ];
        kept = λ d m ne.
            let ne_c : (c == d) ≡ false = ground (arith, m) in
            h.kept d (ground (arith, m)) ne ∙ rw (ne, ne_c);
      }

  -- A builder `b` gets childs that are allocated, no two the same, neither `b` nor childs of it before.
  pub insertchilds-Adopted :
      (b : ℕ) (cs : List ℕ) (s : State) {x : Builder}
      → s.builds b ≡ some x
      → x.num_childs < 2 ^ 64
      → distinct cs ≡ true
      → elem b cs ≡ false
      → All (λ c. elem c x.child_q ≡ false) cs
      → All (Allocated s.builds) cs
      → (f : ℕ → Option Builder) × (csp_insertchilds b (arguments cs) s
          ≡ ret 0 (record s { builds = f }))
        × Adopted s.builds f b x cs
  unfolding csp_insertchilds
  insertchilds-Adopted b [] s {x} at small d b_out outs all = (
    s.builds,
    refl,
    record {
      own = at ∙ ap (λ z. some z) (with_childs-nil x small);
      childs = λ c m. absurd (cc (m));
      kept = λ c m ne. refl;
    },
  )
  insertchilds-Adopted b (c ∷ cs) s {x} at small d b_out (out, outs) ((y, at_c), all) =
      let (new, once) = distinct-uncons c cs d in
      let ne : (c == b) ≡ false = ground (arith, b_out) in
      let b_out' : elem b cs ≡ false = ground (arith, b_out) in
      let (f, runs, h) =
        insertchilds-Adopted b cs (record s { builds = one_more s.builds b c x y })
          {x = record x { num_childs = u64 (x.num_childs + 1); child_q = x.child_q ++ c ∷ [] }}
          (rw (==_refl b)) (omega arith) once b_out'
          (All-mono cs
            (λ e m o. elem-append e x.child_q (c ∷ []) ∙ ground (arith, o, ne_of_elem c e cs new m))
            outs)
          (All-mono cs
            (λ e m w.
              let (z, at_e) = w in
              let b_ne = ne_of_elem b e cs b_out' m in (z, rw (b_ne, ne_of_elem c e cs new m) at_e))
            all) in
      (
        f,
        insert-next s b c (arguments cs) at at_c ne out ∙ runs,
        Adopted-next s.builds f b c cs x y at_c ne new h b_out',
      )
