-- ===== src/Proxc/Current.antt =====
-- The parts of a SEQ of PROCs: the current one, the step to the next, and the end of the last.
use libproxc.Base.{
  ℕ, suc, ◌≤◌, ◌<◌, ◌^◌, ◌≡◌, refl, sym, ap, fun_ext, ◌∙◌, true, false, Option, some, List, [], ◌∷◌,
  ◌++◌, arith, ◌==◌, ==_refl, elem, elem-append, ne_of_elem, All, All-elem, Bool-cases, inl, inr,
  length, length-append, distinct, distinct-uncons, update,
}
use libproxc.Platform.{Platform}
use libproxc.Store.{State, Proc, Builder, seq_build, ret}
use libproxc.Scheduler.Queues.Fifo.{readied}
use libproxc.Csp.Finish.{next_of, csp_parsebuild}
use libproxc.Csp.Start.{Tree, proc, seq, depth, Stored}
use libproxc.Csp.Standing.{nodes, Standing}
use libproxc.Csp.Cleanup.{without}
use libproxc.Csp.Resume.{parsebuild-resumes}
use libproxc.Csp.Next.{parsebuild-moved}
use libproxc.Csp.Join.{Part}
use libproxc.Csp.Parts.{run_by}
use libproxc.Csp.Leaves.{
  leaves, Leaf, roots-leaves, nodes-leaves, depth-leaves, StoredAll-leaves, StandingAll-leaves,
}
use libproxc.Proxc.Made.{made_build}

pub elem-mid : (before : List ℕ) (c : ℕ) (after : List ℕ) → elem c (before ++ c ∷ after) ≡ true
elem-mid before c after = ground (arith, elem-append c before (c ∷ after), ==_refl c)

next_of-mid :
    (before : List ℕ) (c d : ℕ) (after : List ℕ)
    → distinct (before ++ c ∷ d ∷ after) ≡ true
    → next_of c (before ++ c ∷ d ∷ after) ≡ some d
unfolding next_of
next_of-mid [] c d after once = rw (==_refl c)
next_of-mid (y ∷ before) c d after once =
    let (out, once') = distinct-uncons y (before ++ c ∷ d ∷ after) once in
    let ne = ne_of_elem y c (before ++ c ∷ d ∷ after) out (elem-mid before c (d ∷ after)) in
    let ne' : (c == y) ≡ false = ground (arith, ne) in rw (ne') (next_of-mid before c d after once')

-- The root of a SEQ of `cs` that `p` runs, when `n` of its parts are left and `c` is the current one.
abbrev pub at_part : (p : ℕ) (cs : List ℕ) (c n : ℕ) → Builder
at_part p cs c n = record (run_by (some p) (made_build seq_build (some c) cs)) { num_childs = n }

module _ (g : ℕ → Option Builder) (run : ℕ → ℕ) (b c1 : ℕ) (rest : List ℕ) where
  abbrev pub tree : Tree
  tree = seq b (proc c1 (run c1)) (leaves run rest)

  pub tree-Stored :
      g b ≡ some (made_build seq_build (some c1) (c1 ∷ rest))
      → All (Leaf g run) (c1 ∷ rest)
      → Stored g tree
  unfolding Stored
  tree-Stored own (l, all) = (
    _,
    own,
    refl,
    ap (λ (l : List ℕ). c1 ∷ l) (sym (roots-leaves run rest)),
    refl,
    (l.build, l.at, l.typed, l.runs),
    StoredAll-leaves g run rest all,
  )

  tree-Standing :
      (x : Builder)
      → x.type ≡ seq_build
      → x.child_q ≡ c1 ∷ rest
      → All (Leaf (update g b (some x)) run) (c1 ∷ rest)
      → Standing (update g b (some x)) tree
  unfolding Standing
  tree-Standing x typed childs (l, all) = (
    x,
    rw (==_refl b),
    typed,
    childs ∙ ap (λ (l : List ℕ). c1 ∷ l) (sym (roots-leaves run rest)),
    ((l.build, l.at, l.typed), StandingAll-leaves (update g b (some x)) run rest all),
  )

  tree-nodes : nodes tree ≡ b ∷ c1 ∷ rest
  unfolding nodes
  tree-nodes = ap (λ (l : List ℕ). b ∷ c1 ∷ l) (nodes-leaves run rest)

  pub tree-depth : depth tree ≤ 2
  unfolding depth
  tree-depth = omega (arith, depth-leaves run rest)

overwritten :
    (g : ℕ → Option Builder) (b : ℕ) (x y z : Option Builder)
    → update (update (update g b x) b y) b z ≡ update g b z
overwritten g b x y z =
    fun_ext λ q. elim (Bool-cases (b == q)) [ inl e ↦ rw (e) | inr ne ↦ rw (ne) ]

module _ ⦃v : Platform⦄ where
  -- `all` and `parts` are about the store in which the part `c` is the current one.
  pub part-moves :
      (g : ℕ → Option Builder) (run : ℕ → ℕ) (fuel b p c d : ℕ) (before after cs : List ℕ)
      (s : State) {q : Proc}
      → cs ≡ before ++ c ∷ d ∷ after
      → distinct cs ≡ true
      → length cs < 2 ^ 64
      → elem b cs ≡ false
      → All (Leaf (update g b (some (at_part p cs c (suc (suc (length after)))))) run) cs
      → Part (update g b (some (at_part p cs c (suc (suc (length after)))))) b c
      → s.procs (run d) ≡ some q
      → elem (run d) s.sched.ready_q ≡ false
      → csp_parsebuild
          (suc (suc (suc fuel)))
          c
          (record s { builds = update g b (some (at_part p cs c (suc (suc (length after))))) })
        ≡ ret tt (
            readied
              (record s { builds = update g b (some (at_part p cs d (suc (length after)))) })
              (run d)
              q)
  part-moves g run fuel b p c d before after cs s {q} split once small out all part at ready_out =
      let n = length after in
      let x = at_part p cs c (suc (suc n)) in
      let f = update g b (some x) in
      let d_in : elem d cs ≡ true =
        ap (elem d) split ∙ elem-append d before (c ∷ d ∷ after) ∙ ground (arith, ==_refl d) in
      let leaf = All-elem (Leaf f run) cs d all d_in in
      let next : next_of c cs ≡ some d =
        ap (next_of c) split ∙ next_of-mid before c d after (ap distinct (sym split) ∙ once) in
      let few : suc (suc n) < 2 ^ 64 =
        omega (arith, small, ap length split, length-append before (c ∷ d ∷ after)) in
      parsebuild-moved fuel b c c d (run d) n (record s { builds = f }) {x = x} {y = leaf.build}
        {proc = q} part (rw (==_refl b)) refl refl few refl next (ne_of_elem b d cs out d_in)
        leaf.at leaf.typed leaf.runs at ready_out
      ∙ ap (λ (h : ℕ → Option Builder). ret tt (readied (record s { builds = h }) (run d) q))
          (overwritten g b (some x) (some (record x { num_childs = suc n }))
            (some (at_part p cs d (suc n))))

  pub last-ends :
      (g : ℕ → Option Builder) (run : ℕ → ℕ) (fuel b p c1 e : ℕ) (rest : List ℕ) (s : State)
      {q : Proc}
      → 1 ≤ fuel
      → distinct (b ∷ c1 ∷ rest) ≡ true
      → All (Leaf (update g b (some (at_part p (c1 ∷ rest) e 1))) run) (c1 ∷ rest)
      → Part (update g b (some (at_part p (c1 ∷ rest) e 1))) b e
      → s.procs p ≡ some q
      → elem p s.sched.ready_q ≡ false
      → csp_parsebuild
          (suc (suc (suc fuel)))
          e
          (record s { builds = update g b (some (at_part p (c1 ∷ rest) e 1)) })
        ≡ ret tt (
            without
              (readied (record s { builds = update g b (some (at_part p (c1 ∷ rest) e 1)) }) p q)
              (b ∷ c1 ∷ rest))
  last-ends g run fuel b p c1 e rest s {q} enough once all part at ready_out =
      let x = at_part p (c1 ∷ rest) e 1 in
      let f = update g b (some x) in
      let t = tree g run b c1 rest in
      parsebuild-resumes t (suc fuel) e p (record s { builds = f }) {leaf = part.leaf} {x = x}
        {proc = q} (omega (arith, enough, tree-depth g run b c1 rest))
        (ap distinct (tree-nodes g run b c1 rest) ∙ once)
        (tree-Standing g run b c1 rest x refl refl all) part.at part.typed part.inner part.under
        (rw (==_refl b)) (inr refl) refl refl refl at ready_out
      ∙ ap (λ (l : List ℕ). ret tt (without (readied (record s { builds = f }) p q) l))
          (tree-nodes g run b c1 rest)
