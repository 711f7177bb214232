-- ===== src/Csp/Parts.antt =====
-- Which members of the builders csp_runbuild follows: a store that agrees on them holds the same trees.
use libproxc.Base.{
  ℕ, ◌≡◌, refl, ap, sym, ◌∙◌, true, Option, none, some, ◌==◌, ==_iff, Bool-cases, inl, inr, update,
  All,
}
use libproxc.Store.{Builder}
use libproxc.Csp.Start.{Tree, Forest, proc, par, seq, nil, cons, root, roots, Stored, StoredAll}
use libproxc.Csp.Insert.{Allocated}

-- The members by which a tree is found.
abbrev pub SameParts : (x y : Builder) → Type 0
SameParts x y =
    (y.type ≡ x.type) × (y.proc ≡ x.proc) × (y.child_q ≡ x.child_q) × (y.curr_build ≡ x.curr_build)

mutual
  unfolding Stored

  pub Stored-parts :
      (f f' : ℕ → Option Builder) (t : Tree)
      → ((q : ℕ) (x : Builder) → f q ≡ some x → (y : Builder) × (f' q ≡ some y) × SameParts x y)
      → Stored f t
      → Stored f' t
  Stored-parts f f' (proc b p) same (x, at, typed, is) =
      let (y, at', (type, pr, childs, curr)) = same b x at in (y, at', type ∙ typed, pr ∙ is)
  Stored-parts f f' (par b ts) same (x, at, typed, queue, all) =
      let (y, at', (type, pr, childs, curr)) = same b x at in
      (y, at', type ∙ typed, childs ∙ queue, StoredAll-parts f f' ts same all)
  Stored-parts f f' (seq b t ts) same (x, at, typed, queue, first, one, all) =
      let (y, at', (type, pr, childs, curr)) = same b x at in
      (
        y,
        at',
        type ∙ typed,
        childs ∙ queue,
        curr ∙ first,
        Stored-parts f f' t same one,
        StoredAll-parts f f' ts same all,
      )

  pub StoredAll-parts :
      (f f' : ℕ → Option Builder) (ts : Forest)
      → ((q : ℕ) (x : Builder) → f q ≡ some x → (y : Builder) × (f' q ≡ some y) × SameParts x y)
      → StoredAll f ts
      → StoredAll f' ts
  StoredAll-parts f f' nil same h = tt
  StoredAll-parts f f' (cons t ts) same (one, all) =
      (Stored-parts f f' t same one, StoredAll-parts f f' ts same all)

pub root-Allocated : (f : ℕ → Option Builder) (t : Tree) → Stored f t → Allocated f (root t)
unfolding Stored
root-Allocated f (proc b p) (x, at, _, _) = (x, at)
root-Allocated f (par b ts) (x, at, _, _, _) = (x, at)
root-Allocated f (seq b t ts) (x, at, _, _, _, _, _) = (x, at)

pub roots-Allocated :
    (f : ℕ → Option Builder) (ts : Forest) → StoredAll f ts → All (Allocated f) (roots ts)
unfolding Stored
roots-Allocated f nil h = tt
roots-Allocated f (cons t ts) (one, all) = (root-Allocated f t one, roots-Allocated f ts all)

-- A PROC's RUN sets these members of the root.
abbrev pub run_by : (p : Option ℕ) → Builder → Builder
run_by p x = record x { is_root = true; run_proc = p }

pub run_by-SameParts :
    (f : ℕ → Option Builder) (r : ℕ) (p : Option ℕ) {x : Builder}
    → f r ≡ some x
    → (q : ℕ) (z : Builder) → f q ≡ some z
    → (y : Builder) × (update f r (some (run_by p x)) q ≡ some y) × SameParts z y
run_by-SameParts f r p {x} at q z at' = elim (Bool-cases (r == q)) [
  | inl here ↦
      let both : some x ≡ some z = sym at ∙ ap f ((==_iff r q).0 here) ∙ at' in
      let e : x ≡ z = ap (λ (o : Option Builder). elim o [ none ↦ x | some w ↦ w ]) both in
      (
        run_by p x,
        rw (here),
        (
          ap (λ (w : Builder). w.type) e,
          ap (λ (w : Builder). w.proc) e,
          ap (λ (w : Builder). w.child_q) e,
          ap (λ (w : Builder). w.curr_build) e,
        ),
      )
  | inr ne ↦ (z, rw (ne) at', (refl, refl, refl, refl))
]
