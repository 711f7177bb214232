-- ===== src/Proxc/Joined.antt =====
-- RUN(PAR(...)) of PROCs as a whole: the tree is made and started, the PROCs end, RUN returns.
use libproxc.Base.{
  ℕ, suc, ◌≤◌, ◌<◌, ◌^◌, ◌≡◌, refl, sym, ap, ◌∙◌, true, false, Option, none, some, List, ◌∷◌, ◌++◌,
  arith, ==_refl, elem, All, All-mono, length, distinct, distinct-cons, update,
}
use libproxc.Platform.{Platform}
use libproxc.Store.{State, Proc, Builder, par_build, ret, yielded}
use libproxc.Scheduler.Queues.Fifo.{readied}
use libproxc.Scheduler.Queues.Many.{Addable}
use libproxc.Csp.Build.{for_each}
use libproxc.Csp.Finish.{csp_parsebuild}
use libproxc.Csp.Start.{par, starts, starts_all, depth, Stored}
use libproxc.Csp.Standing.{nodes, Standing}
use libproxc.Csp.Cleanup.{without}
use libproxc.Csp.Join.{parts-join}
use libproxc.Csp.Insert.{arguments, Allocated}
use libproxc.Csp.Parts.{run_by}
use libproxc.Csp.Leaves.{
  leaves, Leaf, roots-leaves, nodes-leaves, depth-leaves, StoredAll-leaves, StandingAll-leaves,
}
use libproxc.Proxc.Family.{leaves-made, leaves-over, leaf-Part, without-over}
use libproxc.Proxc.Trees.{proxc_par, proxc_run}
use libproxc.Proxc.Made.{made_build, not_elem, blank-Made, par-runs}
use libproxc.Proxc.Run.{run_waiting, run-waits}

module _ (g : ℕ → Option Builder) (run : ℕ → ℕ) (b : ℕ) (cs : List ℕ) where
  tree-Stored :
      g b ≡ some (made_build par_build none cs)
      → All (Leaf g run) cs
      → Stored g (par b (leaves run cs))
  unfolding Stored
  tree-Stored own all = (_, own, refl, sym (roots-leaves run cs), StoredAll-leaves g run cs all)

  tree-Standing :
      (x : Builder)
      → x.type ≡ par_build
      → x.child_q ≡ cs
      → All (Leaf (update g b (some x)) run) cs
      → Standing (update g b (some x)) (par b (leaves run cs))
  unfolding Standing
  tree-Standing x typed childs all = (
    x,
    rw (==_refl b),
    typed,
    childs ∙ sym (roots-leaves run cs),
    StandingAll-leaves (update g b (some x)) run cs all,
  )

  tree-nodes : nodes (par b (leaves run cs)) ≡ b ∷ cs
  unfolding nodes
  tree-nodes = ap (λ (l : List ℕ). b ∷ l) (nodes-leaves run cs)

module _ ⦃v : Platform⦄ where
  -- The builders `cs` are those of PROCs, distinct and no root of a run, at least one and fewer than
  -- 2^64; their PROCs are distinct, allocated and not ready; `b` is not allocated. The allocated PROC `p`
  -- makes a PAR of them at `b` and runs it: both succeed, the PROCs are made ready in order, and `p`
  -- waits, to return 0 from RUN. Whatever happens then to the rest of the store, `s'`, in which `p` is
  -- not ready: after as many ends of these PROCs as there are of them, in whatever order, `p` is made ready,
  -- once, and all builders made for the PAR are freed, while the others are as they were before PAR.
  pub par-joins :
      (run : ℕ → ℕ) (fuel b p c d : ℕ) (cs ds : List ℕ) (s s' : State) {self proc : Proc}
      → 2 ≤ fuel
      → s.builds b ≡ none
      → All (Leaf s.builds run) (c ∷ cs)
      → distinct (c ∷ cs) ≡ true
      → length (c ∷ cs) < 2 ^ 64
      → distinct (starts_all (leaves run (c ∷ cs))) ≡ true
      → All (Addable s.procs s.sched.ready_q) (starts_all (leaves run (c ∷ cs)))
      → s.sched.curr_proc ≡ some p
      → s.procs p ≡ some self
      → s'.procs p ≡ some proc
      → elem p s'.sched.ready_q ≡ false
      → length (d ∷ ds) ≡ length (c ∷ cs)
      → All (λ e. elem e (c ∷ cs) ≡ true) (d ∷ ds)
      → (made waiting : State) × (proxc_par (some b) (arguments (c ∷ cs)) s ≡ ret (some b) made)
        × (proxc_run fuel b made ≡ yielded waiting (λ u. ret 0 u))
        × (waiting.sched.ready_q ≡ s.sched.ready_q ++ starts_all (leaves run (c ∷ cs)))
        × (for_each
              (csp_parsebuild (suc (suc fuel)))
              (d ∷ ds)
              (record s' { builds = waiting.builds })
            ≡ ret tt (without (readied (record s' { builds = s.builds }) p proc) (b ∷ c ∷ cs)))
  unfolding starts depth
  par-joins run fuel b p c d cs ds s s' {self} {proc} enough fresh all once small once' ready curr
        at_p at_p' off count ends =
      let L = c ∷ cs in
      let t = par b (leaves run L) in
      let held : All (Allocated s.builds) L = All-mono L (λ e m l. (l.build, l.at)) all in
      let out = not_elem s.builds b L fresh held in
      let (g, runs, h) = blank-Made b par_build L s fresh once small held in
      let x = made_build par_build none L in
      let y = run_by (some p) x in
      let made : State = record s { builds = g } in
      let deep : depth t ≤ fuel = omega (arith, depth-leaves run L) in
      let once_all : distinct (nodes t) ≡ true =
        ap distinct (tree-nodes g run b L) ∙ distinct-cons b L out once in
      let stored = tree-Stored g run b L h.own (leaves-made s.builds g run b x L out h all) in
      let standing =
        tree-Standing g run b L y refl refl (leaves-over s.builds g run b x L out h all y) in
      (
        made,
        run_waiting made p b x (starts t),
        par-runs b L s g runs,
        (run-waits t fuel p made {x = x} deep stored h.own once' ready curr at_p).1,
        refl,
        parts-join t fuel p d ds (record s' { builds = update g b (some y) }) {x = y} deep once_all
              standing (rw (==_refl b)) refl (sym count) (omega (arith, small, count)) refl refl
              at_p' off
              (All-mono (d ∷ ds) (λ e m l. leaf-Part s.builds g run b x L out h all y e l) ends)
            ∙ ap
                (λ (l : List ℕ).
                  ret tt (without (readied (record s' { builds = update g b (some y) }) p proc) l))
                (tree-nodes g run b L)
            ∙ ap (λ (u : State). ret tt u)
                (without-over s.builds g run b x L out h all y (readied s' p proc)),
      )
