-- ===== src/Proxc/Made.antt =====
-- proxc_par and proxc_seq make a tree of the trees that they are given.
use libproxc.Base.{
  ℕ, ◌^◌, ◌<◌, ◌≡◌, refl, ap, sym, ◌∙◌, true, false, Option, none, some, List, [], ◌∷◌, arith, ◌==◌,
  ==_refl, ==_iff, Bool-cases, inl, inr, elem, distinct, length, update, All, All-mono, ne_of_elem,
  head?,
}
use libproxc.Platform.{Platform}
use libproxc.Store.{State, BuildType, par_build, seq_build, Builder, ret}
use libproxc.Csp.Build.{csp_create, csp_insertchilds}
use libproxc.Csp.Start.{Tree, Forest, par, seq, cons, root, roots, Stored, StoredAll}
use libproxc.Csp.Insert.{arguments, adopted, Allocated, insertchilds-Adopted}
use libproxc.Csp.Parts.{SameParts, StoredAll-parts, roots-Allocated}
use libproxc.Proxc.Trees.{proxc_par, proxc_seq}

-- A builder as csp_create leaves it.
abbrev pub blank_build : BuildType → Builder
blank_build type = record {
  type = type;
  parent = none;
  is_root = false;
  run_proc = none;
  proc = none;
  num_childs = 0;
  child_q = [];
  curr_build = none;
}

-- The builder `b`, holding `x`, is new, the builders `cs` have it as their parent, and the others are
-- as they were.
pub record Made (f f' : ℕ → Option Builder) (b : ℕ) (x : Builder) (cs : List ℕ) : Type 0 where
  pub own : f' b ≡ some x
  pub childs : (c : ℕ) → elem c cs ≡ true → f' c ≡ adopted b (f c)
  pub kept : (c : ℕ) → elem c cs ≡ false → (b == c) ≡ false → f' c ≡ f c

pub not_elem :
    (f : ℕ → Option Builder) (b : ℕ) (cs : List ℕ)
    → f b ≡ none
    → All (Allocated f) cs
    → elem b cs ≡ false
not_elem f b [] fresh all = refl
not_elem f b (c ∷ cs) fresh ((y, at), all) = elim (Bool-cases (b == c)) [
  | inl here ↦
      let both : none ≡ some y = sym fresh ∙ ap f ((==_iff b c).0 here) ∙ at in absurd (cc (both))
  | inr ne ↦ rw (ne, not_elem f b cs fresh all)
]

-- A store in which a builder is made has the trees that it had.
Made-same :
    (f f' : ℕ → Option Builder) (b : ℕ) (x : Builder) (cs : List ℕ)
    → f b ≡ none
    → Made f f' b x cs
    → (q : ℕ) (y : Builder) → f q ≡ some y
    → (z : Builder) × (f' q ≡ some z) × SameParts y z
Made-same f f' b x cs fresh h q y at =
    let ne : (b == q) ≡ false = elim (Bool-cases (b == q)) [
      | inl here ↦
          let both : none ≡ some y = sym fresh ∙ ap f ((==_iff b q).0 here) ∙ at in
          absurd (cc (both))
      | inr ne ↦ ne
    ] in
    elim (Bool-cases (elem q cs)) [
      | inl m ↦
          (record y { parent = some b }, h.childs q m ∙ ap (adopted b) at, (refl, refl, refl, refl))
      | inr out ↦ (y, h.kept q out ne ∙ at, (refl, refl, refl, refl))
    ]

-- The builder that proxc_par and proxc_seq make of the builders `cs`.
abbrev pub made_build : BuildType → (curr_build : Option ℕ) → List ℕ → Builder
made_build type curr cs = record (blank_build type) {
  num_childs = length cs;
  child_q = cs;
  curr_build = curr;
}

module _ ⦃v : Platform⦄ where
  pub blank-Made :
      (b : ℕ) (type : BuildType) (cs : List ℕ) (s : State)
      → s.builds b ≡ none
      → distinct cs ≡ true
      → length cs < 2 ^ 64
      → All (Allocated s.builds) cs
      → (f : ℕ → Option Builder) × (csp_insertchilds b
            (arguments cs)
            (record s { builds = update s.builds b (some (blank_build type)) })
          ≡ ret 0 (record s { builds = f }))
        × Made s.builds f b (made_build type none cs) cs
  blank-Made b type cs s fresh once small all =
      let out = not_elem s.builds b cs fresh all in
      let (f, runs, h) =
        insertchilds-Adopted b cs
          (record s { builds = update s.builds b (some (blank_build type)) }) {x = blank_build type}
          (rw (==_refl b)) (omega arith) once out (All-mono cs (λ c m w. refl) all)
          (All-mono cs (λ c m w. let (y, at) = w in (y, rw (ne_of_elem b c cs out m) at)) all) in
      (
        f,
        runs,
        record {
          own =
              h.own
              ∙ ap (λ (n : ℕ). some (record (made_build type none cs) { num_childs = n }))
                  (omega arith);
          childs = λ c m. h.childs c m ∙ rw (ne_of_elem b c cs out m);
          kept = λ c m ne. h.kept c m ne ∙ rw (ne);
        },
      )

  pub par-runs :
      (b : ℕ) (cs : List ℕ) (s : State) (f : ℕ → Option Builder)
      → csp_insertchilds b
          (arguments cs)
          (record s { builds = update s.builds b (some (blank_build par_build)) })
        ≡ ret 0 (record s { builds = f })
      → proxc_par (some b) (arguments cs) s ≡ ret (some b) (record s { builds = f })
  unfolding proxc_par csp_create
  par-runs b cs s f runs = rw (runs)

  pub seq-runs :
      (b : ℕ) (cs : List ℕ) (s : State) (f : ℕ → Option Builder) {x : Builder}
      → csp_insertchilds b
          (arguments cs)
          (record s { builds = update s.builds b (some (blank_build seq_build)) })
        ≡ ret 0 (record s { builds = f })
      → f b ≡ some x
      → proxc_seq (some b) (arguments cs) s
        ≡ ret
            (some b)
            (record s { builds = update f b (some (record x { curr_build = head? x.child_q })) })
  unfolding proxc_seq csp_create
  seq-runs b cs s f runs own = rw (runs, own)

  pub curr-Made :
      (f f' : ℕ → Option Builder) (b : ℕ) (type : BuildType) (curr : Option ℕ) (cs : List ℕ)
      → elem b cs ≡ false
      → Made f f' b (made_build type none cs) cs
      → Made f (update f' b (some (made_build type curr cs))) b (made_build type curr cs) cs
  curr-Made f f' b type curr cs out h = record {
    own = rw (==_refl b);
    childs = λ c m. rw (ne_of_elem b c cs out m) (h.childs c m);
    kept = λ c m ne. rw (ne) (h.kept c m ne);
  }

  -- Trees stand in the store, their roots are distinct builders, fewer than 2^64, and `b` is not
  -- allocated. Then PAR of the trees returns `b` and SEQ of them, if there is one at least, does: the
  -- store then holds the PAR, or the SEQ that begins with its first tree, of these trees; the roots
  -- have `b` as their parent, and the other builders are as they were.
  pub par_seq-Stored :
      (b : ℕ) (t : Tree) (ts : Forest) (s : State)
      → s.builds b ≡ none
      → StoredAll s.builds (cons t ts)
      → distinct (roots (cons t ts)) ≡ true
      → length (roots (cons t ts)) < 2 ^ 64
      → ((f : ℕ → Option Builder) × (proxc_par (some b) (arguments (roots (cons t ts))) s
            ≡ ret (some b) (record s { builds = f }))
          × Made s.builds f b (made_build par_build none (roots (cons t ts))) (roots (cons t ts))
          × Stored f (par b (cons t ts)))
        × ((f : ℕ → Option Builder) × (proxc_seq (some b) (arguments (roots (cons t ts))) s
              ≡ ret (some b) (record s { builds = f }))
            × Made s.builds f b
                (made_build seq_build (some (root t)) (roots (cons t ts)))
                (roots (cons t ts))
            × Stored f (seq b t ts))
  unfolding Stored
  par_seq-Stored b t ts s fresh stored once small =
      let cs = roots (cons t ts) in
      let all = roots-Allocated s.builds (cons t ts) stored in
      let out = not_elem s.builds b cs fresh all in
      let (f, runs, h) = blank-Made b par_build cs s fresh once small all in
      let same = Made-same s.builds f b (made_build par_build none cs) cs fresh h in
      let (f', runs', h') = blank-Made b seq_build cs s fresh once small all in
      let y = made_build seq_build (some (root t)) cs in
      let g = update f' b (some y) in
      let k = curr-Made s.builds f' b seq_build (some (root t)) cs out h' in
      let same' = Made-same s.builds g b y cs fresh k in
      let (one, rest) = StoredAll-parts s.builds g (cons t ts) same' stored in
      (
        (
          f,
          par-runs b cs s f runs,
          h,
          (_, h.own, refl, refl, StoredAll-parts s.builds f (cons t ts) same stored),
        ),
        (g, seq-runs b cs s f' runs' h'.own, k, (_, k.own, refl, refl, refl, one, rest)),
      )
