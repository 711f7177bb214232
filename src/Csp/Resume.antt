-- ===== src/Csp/Resume.antt =====
-- The end of a tree: when its last part has ended, the PROC that waits in RUN is resumed.
use libproxc.Base.{
  ℕ, suc, ◌≤◌, ◌≡◌, ◌⊎◌, sym, ◌∙◌, ap, fun_ext, true, false, Option, none, some, List, ◌==◌,
  ==_refl, ==_iff, elem, ne_of_elem, distinct, distinct-uncons, update, Bool-cases, inl, inr,
}
use mathlib.Core.Path.{subst}
use libproxc.Platform.{Platform}
use libproxc.Store.{State, Proc, BuildType, proc_build, par_build, seq_build, Builder, M, ret}
use libproxc.Scheduler.Queues.Fifo.{readied, addready_lem}
use libproxc.Csp.Finish.{parse_as, build_done, csp_parsebuild, csp_cleanupbuild}
use libproxc.Csp.Start.{Tree, proc, par, seq, cons, root, depth}
use libproxc.Csp.Standing.{nodes, nodes_all, Standing, StandingAll-same}
use libproxc.Csp.Cleanup.{without, cleanupbuild-frees}

same_type : {o : Option Builder} {x y : Builder} → o ≡ some x → o ≡ some y → x.type ≡ y.type
same_type {x} h k =
    ap (λ (p : Option Builder). elim p [ none ↦ x.type | some z ↦ z.type ]) (sym h ∙ k)

same_childs : {o : Option Builder} {x y : Builder} → o ≡ some x → o ≡ some y → x.child_q ≡ y.child_q
same_childs {x} h k =
    ap (λ (p : Option Builder). elim p [ none ↦ x.child_q | some z ↦ z.child_q ]) (sym h ∙ k)

-- A tree stands as well with another count at its root.
pub Standing-count :
    (t : Tree) (builds : ℕ → Option Builder) (x : Builder) (n : ℕ)
    → builds (root t) ≡ some x
    → distinct (nodes t) ≡ true
    → Standing builds t
    → Standing (update builds (root t) (some (record x { num_childs = n }))) t
unfolding Standing nodes
Standing-count (proc b p) builds x n h once (y, at, type) =
    (record x { num_childs = n }, rw (==_refl b), same_type h at ∙ type)
Standing-count (par b ts) builds x n h once (y, at, type, childs, all) = (
  record x { num_childs = n },
  rw (==_refl b),
  same_type h at ∙ type,
  same_childs h at ∙ childs,
  StandingAll-same ts
      (λ q m. rw (ne_of_elem b q (nodes_all ts) (distinct-uncons b (nodes_all ts) once).0 m)) all,
)
Standing-count (seq b t ts) builds x n h once (y, at, type, childs, all) =
    let out = (distinct-uncons b (nodes_all (cons t ts)) once).0 in
    (
      record x { num_childs = n },
      rw (==_refl b),
      same_type h at ∙ type,
      same_childs h at ∙ childs,
      StandingAll-same (cons t ts) (λ q m. rw (ne_of_elem b q (nodes_all (cons t ts)) out m)) all,
    )

pub root-elem : (t : Tree) → elem (root t) (nodes t) ≡ true
unfolding nodes
root-elem (proc b p) = rw (==_refl b)
root-elem (par b ts) = rw (==_refl b)
root-elem (seq b t ts) = rw (==_refl b)

module _ ⦃v : Platform⦄ where
  -- The store after the count of a builder has become `n`.
  abbrev pub counted : State → (b : ℕ) → Builder → (n : ℕ) → State
  counted s b x n = record s { builds = update s.builds b (some (record x { num_childs = n })) }

  parse-last :
      (fuel : ℕ) (type : BuildType) (x : Builder) (b : ℕ) (s : State)
      → (type ≡ par_build) ⊎ (type ≡ seq_build)
      → x.num_childs ≡ 1
      → parse_as fuel type x b s ≡ ret true (counted s b x 0)
  unfolding parse_as
  parse-last fuel type x b s (inl e) last = rw (e, last)
  parse-last fuel type x b s (inr e) last = rw (e, last)

  pub without-counted :
      (s : State) (b : ℕ) (x : Builder) (n : ℕ) (xs : List ℕ)
      → elem b xs ≡ true
      → without (counted s b x n) xs ≡ without s xs
  without-counted s b x n xs m =
      ap (λ (f : ℕ → Option Builder). record s { builds = f })
        (fun_ext λ a. elim (Bool-cases (b == a)) [
          | inl here ↦
              let m' : elem a xs ≡ true = subst (λ z. elem z xs ≡ true) ((==_iff b a).0 here) m in
              rw m'
          | inr other ↦ rw other
        ])

  done-root :
      (up : ℕ → M (Unit {0})) (fuel b p : ℕ) (s : State) {x : Builder} {proc : Proc}
      → s.builds b ≡ some x
      → x.is_root ≡ true
      → x.run_proc ≡ some p
      → s.procs p ≡ some proc
      → elem p s.sched.ready_q ≡ false
      → build_done up fuel b s ≡ csp_cleanupbuild fuel b (readied s p proc)
  unfolding build_done
  done-root up fuel b p s at is_root run pr out = rw (at, is_root, run, addready_lem s pr out)

  pub done-child :
      (up : ℕ → M (Unit {0})) (fuel b parent : ℕ) (s : State) {x : Builder}
      → s.builds b ≡ some x
      → x.is_root ≡ false
      → x.parent ≡ some parent
      → build_done up fuel b s ≡ up parent s
  unfolding build_done
  done-child up fuel b parent s at is_root up_to = rw (at, is_root, up_to)

  pub parse-done :
      (fuel b : ℕ) (s s' : State) {x : Builder}
      → s.builds b ≡ some x
      → parse_as fuel x.type x b s ≡ ret true s'
      → csp_parsebuild (suc fuel) b s ≡ build_done (csp_parsebuild fuel) fuel b s'
  unfolding csp_parsebuild
  parse-done fuel b s s' at r = rw (at, r)

  pub parse-proc :
      (fuel : ℕ) (type : BuildType) (x : Builder) (b : ℕ) (s : State)
      → type ≡ proc_build
      → parse_as fuel type x b s ≡ ret true s
  unfolding parse_as
  parse-proc fuel type x b s e = rw e

  root_ends :
      (t : Tree) (fuel p : ℕ) (s : State) {x : Builder} {proc : Proc}
      → depth t ≤ fuel
      → distinct (nodes t) ≡ true
      → Standing s.builds t
      → s.builds (root t) ≡ some x
      → (x.type ≡ par_build) ⊎ (x.type ≡ seq_build)
      → x.num_childs ≡ 1
      → x.is_root ≡ true
      → x.run_proc ≡ some p
      → s.procs p ≡ some proc
      → elem p s.sched.ready_q ≡ false
      → csp_parsebuild (suc fuel) (root t) s ≡ ret tt (without (readied s p proc) (nodes t))
  root_ends t fuel p s {x} {proc} enough once h at kind last is_root run pr out =
      let s' : State = counted s (root t) x 0 in
      parse-done fuel (root t) s s' at (parse-last fuel x.type x (root t) s kind last)
      ∙ done-root (csp_parsebuild fuel) fuel (root t) p s' {x = record x { num_childs = 0 }}
          (rw (==_refl (root t))) is_root run pr out
      ∙ cleanupbuild-frees t fuel (readied s' p proc) enough once
          (Standing-count t s.builds x 0 at once h)
      ∙ ap (λ (u : State). ret tt u)
          (without-counted (readied s p proc) (root t) x 0 (nodes t) (root-elem t))

  -- A tree stands in the store, in which no builder stands twice, its root a PAR or a SEQ with one part
  -- left, on which the PROC `p`, which is not ready, waits in RUN. The PROC of the builder `c`, whose
  -- parent the root is, ends. With fuel for the tree's depth, it does not fault: `p` is made ready,
  -- every builder of the tree is freed, and nothing else changes.
  pub parsebuild-resumes :
      (t : Tree) (fuel c p : ℕ) (s : State) {leaf x : Builder} {proc : Proc}
      → depth t ≤ fuel
      → distinct (nodes t) ≡ true
      → Standing s.builds t
      → s.builds c ≡ some leaf
      → leaf.type ≡ proc_build
      → leaf.is_root ≡ false
      → leaf.parent ≡ some (root t)
      → s.builds (root t) ≡ some x
      → (x.type ≡ par_build) ⊎ (x.type ≡ seq_build)
      → x.num_childs ≡ 1
      → x.is_root ≡ true
      → x.run_proc ≡ some p
      → s.procs p ≡ some proc
      → elem p s.sched.ready_q ≡ false
      → csp_parsebuild (suc (suc fuel)) c s ≡ ret tt (without (readied s p proc) (nodes t))
  parsebuild-resumes t fuel c p s {leaf} enough once h at_c type child parent at kind last is_root
        run pr out =
      parse-done (suc fuel) c s s at_c (parse-proc (suc fuel) leaf.type leaf c s type)
      ∙ done-child (csp_parsebuild (suc fuel)) (suc fuel) c (root t) s at_c child parent
      ∙ root_ends t fuel p s enough once h at kind last is_root run pr out
