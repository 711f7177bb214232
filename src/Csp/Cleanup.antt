-- ===== src/Csp/Cleanup.antt =====
-- csp_cleanupbuild frees a tree: all of it, each part once, and nothing else.
use libproxc.Base.{
  ℕ, zero, suc, ◌≤◌, ◌≡◌, ◌⊎◌, refl, sym, ◌∙◌, ap, fun_ext, true, Option, none, some, List, [], ◌∷◌,
  ◌++◌, arith, ◌==◌, ==_refl, ==_iff, if◌then◌else◌, length, elem, elem-append, ne_of_elem,
  distinct, distinct-append, distinct-cons, distinct-uncons, out-append, update, Bool-cases, inl,
  inr,
}
use mathlib.Core.Path.{subst}
use libproxc.Platform.{Platform}
use libproxc.Platform.Links.{tailq_remove_lem}
use libproxc.Store.{State, BuildType, par_build, seq_build, Builder, M, ret}
use libproxc.Csp.Build.{csp_free}
use libproxc.Csp.Finish.{cleanup_childs, cleanup_as, csp_cleanupbuild}
use libproxc.Csp.Standing.{nodes, nodes_all, Standing, StandingAll, Standing-same, StandingAll-same}
use libproxc.Csp.Start.{Tree, Forest, proc, par, seq, nil, cons, root, roots, depth, depth_all}

-- The store without the builders at `xs`.
abbrev pub without : State → List ℕ → State
without s xs = record s { builds = λ q. if elem q xs then none else s.builds q }

abbrev with_build : State → ℕ → Builder → State
with_build s b x = record s { builds = update s.builds b (some x) }

module _ ⦃v : Platform⦄ where
  cleanup_childs-next :
      (clean : ℕ → M (Unit {0})) (n b c : ℕ) (cs : List ℕ) (s s2 : State) (x : Builder)
      → s.builds b ≡ some x
      → x.child_q ≡ c ∷ cs
      → clean c (with_build s b (record x { child_q = cs })) ≡ ret tt s2
      → cleanup_childs clean (suc n) b s ≡ cleanup_childs clean n b s2
  unfolding cleanup_childs
  cleanup_childs-next clean n b c cs s s2 x at q r =
      rw (at, q, tailq_remove_lem (c ∷ cs) c, ==_refl c, r)

  cleanup_childs-done :
      (clean : ℕ → M (Unit {0})) (b : ℕ) (s : State) (x : Builder)
      → s.builds b ≡ some x
      → x.child_q ≡ []
      → cleanup_childs clean 0 b s ≡ ret tt s
  unfolding cleanup_childs
  cleanup_childs-done clean b s x at q = rw (at, q)

  -- What the loop over the childs leaves: no childs, and the builder without any.
  abbrev emptied : State → ℕ → Builder → List ℕ → State
  emptied s b x xs = with_build (without s xs) b (record x { child_q = [] })

  emptied-next :
      (s : State) (b : ℕ) (x : Builder) (cs xs ys : List ℕ)
      → emptied
          (without (with_build s b (record x { child_q = cs })) xs)
          b
          (record x { child_q = cs })
          ys
        ≡ emptied s b x (xs ++ ys)
  emptied-next s b x cs xs ys =
      ap (λ (f : ℕ → Option Builder). record s { builds = f })
        (fun_ext λ q. elim (Bool-cases (b == q)) [
          | inl here ↦ rw here
          | inr other ↦ rw (other, elem-append q xs ys) (ground arith)
        ])

  emptied-none :
      (s : State) (b : ℕ) (x : Builder)
      → s.builds b ≡ some x
      → x.child_q ≡ []
      → s ≡ emptied s b x []
  emptied-none s b x at q =
      ap (λ (f : ℕ → Option Builder). record s { builds = f })
        (fun_ext λ a. elim (Bool-cases (b == a)) [
          | inl here ↦
              let eq : b ≡ a = (==_iff b a).0 here in
              let at' : s.builds a ≡ some x = subst (λ z. s.builds z ≡ some x) eq at in
              rw here (at' ∙ ap (λ (l : List ℕ). some (record x { child_q = l })) q)
          | inr other ↦ rw other
        ])

  without-cons :
      (s : State) (b : ℕ) (x : Builder) (xs : List ℕ)
      → record (emptied s b x xs) { builds = update (emptied s b x xs).builds b none }
        ≡ without s (b ∷ xs)
  without-cons s b x xs =
      ap (λ (f : ℕ → Option Builder). record s { builds = f })
        (fun_ext λ a. elim (Bool-cases (b == a)) [
          | inl here ↦ rw (here, (==_iff a b).1 (sym ((==_iff b a).0 here)))
          | inr other ↦ ground (arith, other, ==_iff a b, ==_iff b a)
        ])

  without-one :
      (s : State) (b : ℕ) → record s { builds = update s.builds b none } ≡ without s (b ∷ [])
  without-one s b =
      ap (λ (f : ℕ → Option Builder). record s { builds = f })
        (fun_ext λ a. ground (arith, ==_iff a b, ==_iff b a))

  -- A builder of which the loop has freed the childs is freed itself.
  cleanup-whole :
      (fuel : ℕ) (s : State) (b : ℕ) (x : Builder) (xs : List ℕ)
      → s.builds b ≡ some x
      → cleanup_as (csp_cleanupbuild fuel) x.type x b s ≡ ret tt (emptied s b x xs)
      → csp_cleanupbuild (suc fuel) b s ≡ ret tt (without s (b ∷ xs))
  unfolding csp_cleanupbuild csp_free
  cleanup-whole fuel s b x xs at r =
      rw (at, r, ==_refl b) (ap (λ (t : State). ret tt t) (without-cons s b x xs))

  cleanup_as-childs :
      (clean : ℕ → M (Unit {0})) (type : BuildType) (x : Builder) (b : ℕ) (cs : List ℕ) (s : State)
      → (type ≡ par_build) ⊎ (type ≡ seq_build)
      → x.child_q ≡ cs
      → cleanup_as clean type x b s ≡ cleanup_childs clean (length cs) b s
  unfolding cleanup_as
  cleanup_as-childs clean type x b cs s (inl e) q = rw (e, q)
  cleanup_as-childs clean type x b cs s (inr e) q = rw (e, q)

  -- What is to be shown of a tree, and of the childs of the builder `b`.
  abbrev TreeFreed : Tree → (fuel : ℕ) → Type 0
  TreeFreed t fuel =
      (s : State)
      → depth t ≤ fuel
      → distinct (nodes t) ≡ true
      → Standing s.builds t
      → csp_cleanupbuild fuel (root t) s ≡ ret tt (without s (nodes t))

  abbrev ForestFreed : Forest → (fuel : ℕ) → Type 0
  ForestFreed ts fuel =
      (s : State) (b : ℕ) (x : Builder)
      → s.builds b ≡ some x
      → x.child_q ≡ roots ts
      → depth_all ts ≤ fuel
      → distinct (b ∷ nodes_all ts) ≡ true
      → StandingAll s.builds ts
      → cleanup_childs (csp_cleanupbuild fuel) (length (roots ts)) b s
        ≡ ret tt (emptied s b x (nodes_all ts))

  ForestFreed-cons :
      (t : Tree) (ts : Forest) (fuel : ℕ)
      → TreeFreed t fuel
      → ForestFreed ts fuel
      → ForestFreed (cons t ts) fuel
  unfolding nodes_all StandingAll depth_all
  ForestFreed-cons t ts fuel tree forest s b x at childs enough once (one, all) =
      let (fresh, once') = distinct-uncons b (nodes t ++ nodes_all ts) once in
      let (dt, dts, apart) = distinct-append (nodes t) (nodes_all ts) once' in
      let (out, outs) = out-append b (nodes t) (nodes_all ts) fresh in
      let y : Builder = record x { child_q = roots ts } in
      let s1 : State = with_build s b y in
      let s2 : State = without s1 (nodes t) in
      let first =
        tree s1 (omega arith) dt
          (Standing-same t (λ q m. rw (ne_of_elem b q (nodes t) out m)) one) in
      let others =
        forest s2 b y (rw (out, ==_refl b)) refl (omega arith)
          (distinct-cons b (nodes_all ts) outs dts)
          (StandingAll-same ts (λ q m. rw (apart q m, ne_of_elem b q (nodes_all ts) outs m)) all) in
      cleanup_childs-next (csp_cleanupbuild fuel) (length (roots ts)) b (root t) (roots ts) s s2 x
        at childs first
      ∙ others
      ∙ ap (λ (u : State). ret tt u) (emptied-next s b x (roots ts) (nodes t) (nodes_all ts))

  mutual
    unfolding nodes nodes_all Standing StandingAll cleanup_as depth depth_all csp_cleanupbuild
        csp_free

    cleanup-frees : (t : Tree) (fuel : ℕ) → TreeFreed t fuel
    cleanup-frees (proc b p) zero s enough once h = absurd (omega arith)
    cleanup-frees (proc b p) (suc fuel) s enough once (x, at, type) =
        rw (at, type, at) (ap (λ (u : State). ret tt u) (without-one s b))
    cleanup-frees (par b ts) zero s enough once h = absurd (omega arith)
    cleanup-frees (par b ts) (suc fuel) s enough once (x, at, type, childs, all) =
        cleanup-whole fuel s b x (nodes_all ts) at (
          cleanup_as-childs (csp_cleanupbuild fuel) x.type x b (roots ts) s (inl type) childs
          ∙ cleanup_all-frees ts fuel s b x at childs (omega arith) once all)
    cleanup-frees (seq b t ts) zero s enough once h = absurd (omega arith)
    cleanup-frees (seq b t ts) (suc fuel) s enough once (x, at, type, childs, all) =
        cleanup-whole fuel s b x (nodes t ++ nodes_all ts) at (
          cleanup_as-childs (csp_cleanupbuild fuel) x.type x b (root t ∷ roots ts) s (inr type)
            childs
          ∙ (ForestFreed-cons t ts fuel (cleanup-frees t fuel) (cleanup_all-frees ts fuel) s b x at
              childs (omega arith) once all))

    cleanup_all-frees : (ts : Forest) (fuel : ℕ) → ForestFreed ts fuel
    cleanup_all-frees nil fuel s b x at childs enough once h =
        cleanup_childs-done (csp_cleanupbuild fuel) b s x at childs
        ∙ ap (λ (u : State). ret tt u) (emptied-none s b x at childs)
    cleanup_all-frees (cons t ts) fuel s b x at childs enough once h =
        ForestFreed-cons t ts fuel (cleanup-frees t fuel) (cleanup_all-frees ts fuel) s b x at
          childs enough once h

  -- The store holds a tree in which no builder stands twice, with its childs in its queues, and the
  -- recursion may go as deep as the tree is. To clean up the tree does not fault: it frees every
  -- builder of the tree, once, and changes nothing else.
  pub cleanupbuild-frees :
      (t : Tree) (fuel : ℕ) (s : State)
      → depth t ≤ fuel
      → distinct (nodes t) ≡ true
      → Standing s.builds t
      → csp_cleanupbuild fuel (root t) s ≡ ret tt (without s (nodes t))
  cleanupbuild-frees t fuel s enough once h = cleanup-frees t fuel s enough once h
