-- ===== src/Csp/Join.antt =====
-- The ends of all parts of a PAR, in any order.
use libproxc.Base.{
  ℕ, suc, ◌≤◌, ◌<◌, ◌^◌, ◌≡◌, refl, ap, ◌∙◌, true, false, Option, some, List, [], ◌∷◌, arith, ◌==◌,
  ==_refl, elem, distinct, length, All, All-mono, inl,
}
use libproxc.Platform.{Platform}
use libproxc.Store.{State, Proc, BuildType, proc_build, par_build, Builder, ret}
use libproxc.Scheduler.Queues.Fifo.{readied}
use libproxc.Scheduler.Sleep.{dec64}
use libproxc.Csp.Build.{for_each}
use libproxc.Csp.Finish.{parse_as, csp_parsebuild}
use libproxc.Csp.Start.{Tree, root, depth}
use libproxc.Csp.Standing.{nodes, Standing}
use libproxc.Csp.Cleanup.{without}
use libproxc.Csp.Resume.{
  counted, without-counted, parse-done, parse-proc, done-child, Standing-count, root-elem,
  parsebuild-resumes,
}

-- The builder of a PROC that is a part of the tree with the root `b`.
pub record Part (builds : ℕ → Option Builder) (b c : ℕ) : Type 0 where
  pub leaf : Builder
  pub at : builds c ≡ some leaf
  pub typed : leaf.type ≡ proc_build
  pub inner : leaf.is_root ≡ false
  pub under : leaf.parent ≡ some b
  pub below : (b == c) ≡ false

pub dec64-suc : (n : ℕ) → suc n < 2 ^ 64 → dec64 (suc n) ≡ n
dec64-suc n h = ground arith

module _ ⦃v : Platform⦄ where
  parse-par :
      (fuel : ℕ) (type : BuildType) (x : Builder) (b n : ℕ) (s : State)
      → type ≡ par_build
      → dec64 x.num_childs ≡ suc n
      → parse_as fuel type x b s ≡ ret false (counted s b x (suc n))
  unfolding parse_as
  parse-par fuel type x b n s e left =
      let more : (suc n == 0) ≡ false = ground arith in rw (e, left, more)

  pub parse-waits :
      (fuel b : ℕ) (s s' : State) {x : Builder}
      → s.builds b ≡ some x
      → parse_as fuel x.type x b s ≡ ret false s'
      → csp_parsebuild (suc fuel) b s ≡ ret tt s'
  unfolding csp_parsebuild
  parse-waits fuel b s s' at r = rw (at, r)

  -- A part of a PAR ends that is not the last: the count goes down.
  part-ends :
      (fuel b c n : ℕ) (s : State) {x : Builder}
      → Part s.builds b c
      → s.builds b ≡ some x
      → x.type ≡ par_build
      → x.num_childs ≡ suc (suc n)
      → suc (suc n) < 2 ^ 64
      → csp_parsebuild (suc (suc fuel)) c s ≡ ret tt (counted s b x (suc n))
  part-ends fuel b c n s {x} h at typed left small =
      let down : dec64 x.num_childs ≡ suc n = ap dec64 left ∙ dec64-suc (suc n) small in
      parse-done (suc fuel) c s s h.at (parse-proc (suc fuel) h.leaf.type h.leaf c s h.typed)
      ∙ done-child (csp_parsebuild (suc fuel)) (suc fuel) c b s h.at h.inner h.under
      ∙ parse-waits fuel b s (counted s b x (suc n)) at (parse-par fuel x.type x b n s typed down)

  -- A tree stands in the store, in which no builder stands twice, its root a PAR on which the PROC `p`,
  -- which is not ready, waits in RUN. As many PROCs as the root counts, fewer than 2^64, end one after
  -- the other, each the PROC of a builder whose parent the root is, in whatever order. With fuel for the
  -- tree's depth no end faults; after the last one `p` is made ready, once, every builder of the tree is
  -- freed, and nothing else has changed.
  pub parts-join :
      (t : Tree) (fuel p c : ℕ) (cs : List ℕ) (s : State) {x : Builder} {proc : Proc}
      → depth t ≤ fuel
      → distinct (nodes t) ≡ true
      → Standing s.builds t
      → s.builds (root t) ≡ some x
      → x.type ≡ par_build
      → x.num_childs ≡ length (c ∷ cs)
      → length (c ∷ cs) < 2 ^ 64
      → x.is_root ≡ true
      → x.run_proc ≡ some p
      → s.procs p ≡ some proc
      → elem p s.sched.ready_q ≡ false
      → All (Part s.builds (root t)) (c ∷ cs)
      → for_each (csp_parsebuild (suc (suc fuel))) (c ∷ cs) s
        ≡ ret tt (without (readied s p proc) (nodes t))
  unfolding for_each
  parts-join t fuel p c [] s enough once h at typed left small is_root run pr out (leaf, _) = rw (
      parsebuild-resumes t fuel c p s enough once h leaf.at leaf.typed leaf.inner leaf.under at
        (inl typed) left is_root run pr out)
  parts-join t fuel p c (d ∷ cs) s {x} {proc} enough once h at typed left small is_root run pr out
        (leaf, leaves) =
      let b = root t in
      let n = length cs in
      let s' : State = counted s b x (suc n) in
      let rest =
        parts-join t fuel p d cs s' {x = record x { num_childs = suc n }} {proc = proc} enough once
          (Standing-count t s.builds x (suc n) at once h) (rw (==_refl b)) typed refl (omega arith)
          is_root run pr out
          (All-mono (d ∷ cs)
            (λ e m l. record {
              leaf = l.leaf;
              at = rw l.below l.at;
              typed = l.typed;
              inner = l.inner;
              under = l.under;
              below = l.below;
            })
            leaves) in
      rw (part-ends fuel b c n s leaf at typed left small) (
        rest
        ∙ ap (λ (u : State). ret tt u)
            (without-counted (readied s p proc) b x (suc n) (nodes t) (root-elem t)))
