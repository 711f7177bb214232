-- ===== src/Alt/Numbered.antt =====
-- proxc_alt's loop over its arguments: every guard gets its place among them as its key.
use libproxc.Base.{
  ℕ, zero, suc, ◌+◌, ◌≡◌, refl, ap, sym, ◌∙◌, true, false, Option, none, some, List, [], ◌∷◌, ◌++◌,
  arith, ◌==◌, ==_refl, elem, elem-append, ne_of_elem, distinct, distinct-uncons, get_elem?, update,
  All, All-mono,
}
use mathlib.Core.Path.{subst}
use mathlib.Core.List.{append_assoc, append-nil}
use libproxc.Platform.{Platform}
use libproxc.Store.{State, Guard, Alt, ret}
use libproxc.Alt.Guards.{is_time, alt_addguard}
use libproxc.Alt.Keys.{linked_guard, linked_alt, with_linked, link_guard_lem}
use libproxc.Proxc.Choice.{add_guards}

-- The arguments that are not NULL.
abbrev pub present : List (Option ℕ) → List ℕ
present [] = []
present (none ∷ gs) = present gs
present (some g ∷ gs) = g ∷ present gs

-- A guard other than a time guard.
abbrev pub Plain : (ℕ → Option Guard) → ℕ → Type 0
Plain guards g = (guard : Guard) × (guards g ≡ some guard) × (is_time guard.type ≡ false)

abbrev pub keyed : (a key : ℕ) → Alt → Option Guard → Option Guard
keyed a key alt none = none
keyed a key alt (some guard) = some (linked_guard a key alt guard)

-- The guards of the arguments stand in the alternation, in their order, each with its place from the
-- alternation's count on as its key; the other guards are as they were.
pub record Numbered (s s' : State) (a : ℕ) (alt : Alt) (gs : List (Option ℕ)) : Type 0 where
  pub alt' : Alt
  pub at : s'.alts a ≡ some alt'
  pub queue : alt'.guards_q ≡ alt.guards_q ++ present gs
  pub key :
      (i g : ℕ)
      → get_elem? gs i ≡ some (some g)
      → s'.guards g ≡ keyed a (alt.key_count + i) alt (s.guards g)
  pub kept : (g : ℕ) → elem g (present gs) ≡ false → s'.guards g ≡ s.guards g

elem-get_elem? :
    (gs : List (Option ℕ)) (i g : ℕ) → get_elem? gs i ≡ some (some g) → elem g (present gs) ≡ true
elem-get_elem? [] i g e = absurd (cc e)
elem-get_elem? (none ∷ gs) zero g e = absurd (cc e)
elem-get_elem? (some x ∷ gs) zero g e =
    let same : x ≡ g = cc e in
    ground (arith, ==_refl g, (subst (λ y. (g == y) ≡ true) (sym same) (==_refl g)))
elem-get_elem? (none ∷ gs) (suc i) g e = elem-get_elem? gs i g e
elem-get_elem? (some x ∷ gs) (suc i) g e = ground (arith, elem-get_elem? gs i g e)

module _ ⦃v : Platform⦄ where
  abbrev more : State → (a : ℕ) → Alt → State
  more s a alt = record s {
    alts = update s.alts a (some (record alt { key_count = alt.key_count + 1 }));
  }

  addguard-plain :
      (s : State) (a g : ℕ) {alt : Alt} {guard : Guard}
      → s.alts a ≡ some alt
      → s.guards g ≡ some guard
      → is_time guard.type ≡ false
      → elem g alt.guards_q ≡ false
      → alt_addguard a (some g) s
        ≡ ret tt (
            with_linked
              (more s a alt)
              a
              g
              alt.key_count
              (record alt { key_count = alt.key_count + 1 })
              guard)
  unfolding alt_addguard
  addguard-plain s a g {alt} {guard} at h plain out =
      let links =
        link_guard_lem (more s a alt) a g alt.key_count
          {alt = record alt { key_count = alt.key_count + 1 }} {guard = guard} (rw (==_refl a)) h
          out in
      rw (at, h, plain, links)

  addguard-none :
      (s : State) (a : ℕ) {alt : Alt}
      → s.alts a ≡ some alt
      → alt_addguard a none s ≡ ret tt (more s a alt)
  unfolding alt_addguard
  addguard-none s a at = rw at

  Numbered-none :
      (s s' : State) (a : ℕ) (alt : Alt) (gs : List (Option ℕ))
      → Numbered (more s a alt) s' a (record alt { key_count = alt.key_count + 1 }) gs
      → Numbered s s' a alt (none ∷ gs)
  Numbered-none s s' a alt gs n = record {
    alt' = n.alt';
    at = n.at;
    queue = n.queue;
    key = λ i g. next i g;
    kept = n.kept;
  }
    where
      next :
          (i g : ℕ)
          → get_elem? (none ∷ gs) i ≡ some (some g)
          → s'.guards g ≡ keyed a (alt.key_count + i) alt (s.guards g)
      next zero g e = absurd (cc e)
      next (suc i) g e = n.key i g e ∙ ap (λ k. keyed a k alt (s.guards g)) (omega arith)

  -- The store after a guard has been added.
  abbrev added : State → (a g : ℕ) → Alt → Guard → State
  added s a g alt guard =
      with_linked (more s a alt) a g alt.key_count (record alt { key_count = alt.key_count + 1 })
        guard

  abbrev added_alt : (g : ℕ) → Alt → Alt
  added_alt g alt = linked_alt g (record alt { key_count = alt.key_count + 1 })

  Numbered-some :
      (s s' : State) (a g : ℕ) (alt : Alt) (guard : Guard) (gs : List (Option ℕ))
      → s.guards g ≡ some guard
      → elem g (present gs) ≡ false
      → Numbered (added s a g alt guard) s' a (added_alt g alt) gs
      → Numbered s s' a alt (some g ∷ gs)
  Numbered-some s s' a g alt guard gs h out n = record {
    alt' = n.alt';
    at = n.at;
    queue = n.queue ∙ append_assoc alt.guards_q (g ∷ []) (present gs);
    key = λ i x. next i x;
    kept = λ x m.
        let ne : (g == x) ≡ false = ground (arith, m) in n.kept x (ground (arith, m)) ∙ rw ne;
  }
    where
      next :
          (i x : ℕ)
          → get_elem? (some g ∷ gs) i ≡ some (some x)
          → s'.guards x ≡ keyed a (alt.key_count + i) alt (s.guards x)
      next zero x e =
          let same : g ≡ x = cc e in
          let here : s'.guards g ≡ keyed a (alt.key_count + 0) alt (s.guards g) =
            n.kept g out
            ∙ rw (==_refl g, h) (ap (λ k. some (linked_guard a k alt guard)) (omega arith)) in
          subst (λ y. s'.guards y ≡ keyed a (alt.key_count + 0) alt (s.guards y)) same here
      next (suc i) x e =
          let ne = ne_of_elem g x (present gs) out (elem-get_elem? gs i x e) in
          n.key i x e ∙ rw ne (ap (λ k. keyed a k alt (s.guards x)) (omega arith))

  -- The guards among the arguments of proxc_alt, those that are not NULL, are not time guards, no two
  -- are the same, and none is in the alternation yet. The loop that adds them does not fault: they stand
  -- in the alternation in their order, behind those that it has, and the key of each is its place among
  -- the arguments, NULL ones included, counted from the alternation's count on.
  pub add_guards-Numbered :
      (a : ℕ) (gs : List (Option ℕ)) (s : State) {alt : Alt}
      → s.alts a ≡ some alt
      → distinct (present gs) ≡ true
      → All (λ x. elem x alt.guards_q ≡ false) (present gs)
      → All (Plain s.guards) (present gs)
      → (s' : State) × (add_guards a gs s ≡ ret tt s') × Numbered s s' a alt gs
  unfolding add_guards
  add_guards-Numbered a [] s {alt} at d outs plain = (
    s,
    refl,
    record {
      alt' = alt;
      at = at;
      queue = sym (append-nil alt.guards_q);
      key = λ i g e. absurd (cc e);
      kept = λ g m. refl;
    },
  )
  add_guards-Numbered a (none ∷ gs) s {alt} at d outs plain =
      let (s', runs, n) =
        add_guards-Numbered a gs (more s a alt) {alt = record alt { key_count = alt.key_count + 1 }}
          (rw (==_refl a)) d outs plain in
      (s', rw (addguard-none s a at) runs, Numbered-none s s' a alt gs n)
  add_guards-Numbered a (some g ∷ gs) s {alt} at d (out, outs) ((guard, h, is), plain) =
      let (new, once) = distinct-uncons g (present gs) d in
      let (s', runs, n) =
        add_guards-Numbered a gs (added s a g alt guard) {alt = added_alt g alt} (rw (==_refl a))
          once
          (All-mono (present gs)
            (λ x m o.
              elem-append x alt.guards_q (g ∷ [])
              ∙ ground (arith, o, ne_of_elem g x (present gs) new m))
            outs)
          (All-mono (present gs)
            (λ x m w.
              let (guard', at', is') = w in
              (guard', rw (ne_of_elem g x (present gs) new m) at', is'))
            plain) in
      (s', rw (addguard-plain s a g at h is out) runs, Numbered-some s s' a g alt guard gs h new n)
