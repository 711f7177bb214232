-- ===== src/Proxc/Run.antt =====
-- proxc_run and proxc_go on a tree that the store holds.
use libproxc.Base.{
  ℕ, ◌≤◌, ◌≡◌, sym, ap, ◌∙◌, true, Option, none, some, List, distinct, All, update, elem,
  Bool-cases, inl, inr,
}
use libproxc.Platform.{Platform}
use libproxc.Store.{State, Proc, ProcState, Builder, ret, yielded}
use libproxc.Scheduler.Queues.{proc_self, proc_yield}
use libproxc.Scheduler.Queues.Many.{in_state, Addable, all_readied, addready_all}
use libproxc.Csp.Build.{csp_runbuild}
use libproxc.Csp.Start.{Tree, root, starts, depth, Stored, runbuild-starts}
use libproxc.Csp.Parts.{Stored-parts, run_by, run_by-SameParts}
use libproxc.Proxc.Trees.{proxc_run, proxc_go}

-- The store in which the tree with the root `r` has been started.
abbrev pub started : State → (run_proc : Option ℕ) → (r : ℕ) → Builder → List ℕ → State
started s run_proc r x ps =
    all_readied (record s { builds = update s.builds r (some (run_by run_proc x)) }) ps

-- The store in which the PROC `p` waits in RUN for that tree.
abbrev pub run_waiting : State → (p r : ℕ) → Builder → List ℕ → State
run_waiting s p r x ps = record (started s (some p) r x ps) {
  procs =
      update (started s (some p) r x ps).procs p
        (in_state ProcState.runwait ((started s (some p) r x ps).procs p));
}

held_after :
    (s : State) (p : ℕ) (ps : List ℕ) {self : Proc}
    → s.procs p ≡ some self
    → (q : Proc) × ((all_readied s ps).procs p ≡ some q)
held_after s p ps {self} at = elim (Bool-cases (elem p ps)) [
  | inl m ↦ (record self { state = ProcState.ready }, rw (m, at))
  | inr out ↦ (self, rw (out, at))
]

module _ ⦃v : Platform⦄ where
  starts-ready :
      (t : Tree) (fuel : ℕ) (run_proc : Option ℕ) (s : State) {x : Builder}
      → depth t ≤ fuel
      → Stored s.builds t
      → s.builds (root t) ≡ some x
      → distinct (starts t) ≡ true
      → All (Addable s.procs s.sched.ready_q) (starts t)
      → csp_runbuild fuel
          (root t)
          (record s { builds = update s.builds (root t) (some (run_by run_proc x)) })
        ≡ ret tt (started s run_proc (root t) x (starts t))
  starts-ready t fuel run_proc s {x} enough h at once all =
      let f = update s.builds (root t) (some (run_by run_proc x)) in
      runbuild-starts t fuel (record s { builds = f }) enough
        (Stored-parts s.builds f t (run_by-SameParts s.builds (root t) run_proc at) h)
      ∙ addready_all (starts t) (record s { builds = f }) once all

  pub go-started :
      (t : Tree) (fuel : ℕ) (s : State) {x : Builder}
      → depth t ≤ fuel
      → Stored s.builds t
      → s.builds (root t) ≡ some x
      → distinct (starts t) ≡ true
      → All (Addable s.procs s.sched.ready_q) (starts t)
      → proxc_go fuel (root t) s ≡ ret 0 (started s none (root t) x (starts t))
  unfolding proxc_go
  go-started t fuel s enough h at once all =
      rw (at, starts-ready t fuel none s enough h at once all)

  abbrev run_from : State → (p : ℕ) → State
  run_from s p = record s { sched = record s.sched { curr_proc = some p } }

  run-from :
      (t : Tree) (fuel p : ℕ) (s : State) {x : Builder} {self : Proc}
      → depth t ≤ fuel
      → Stored s.builds t
      → s.builds (root t) ≡ some x
      → distinct (starts t) ≡ true
      → All (Addable s.procs s.sched.ready_q) (starts t)
      → s.procs p ≡ some self
      → proxc_run fuel (root t) (run_from s p)
        ≡ yielded (run_waiting (run_from s p) p (root t) x (starts t)) (λ s'. ret 0 s')
  unfolding proxc_run proc_yield proc_self
  run-from t fuel p s enough h at once all self =
      let (proc, held) = held_after s p (starts t) self in
      rw (at, starts-ready t fuel (some p) (run_from s p) enough h at once all, held)

  -- The store holds a tree, and the PROCs that it begins with are distinct, allocated and not in the
  -- ready queue. With fuel for the tree's depth, GO makes them ready, in order, marks the root and
  -- returns 0. RUN by the allocated PROC `p` does the same, with `p` as the PROC to resume, and waits in
  -- state RUNWAIT; resumed, it returns 0. Nothing else in the store changes.
  pub run-waits :
      (t : Tree) (fuel p : ℕ) (s : State) {x : Builder} {self : Proc}
      → depth t ≤ fuel
      → Stored s.builds t
      → s.builds (root t) ≡ some x
      → distinct (starts t) ≡ true
      → All (Addable s.procs s.sched.ready_q) (starts t)
      → s.sched.curr_proc ≡ some p
      → s.procs p ≡ some self
      → (proxc_go fuel (root t) s ≡ ret 0 (started s none (root t) x (starts t)))
        × (proxc_run fuel (root t) s
            ≡ yielded (run_waiting s p (root t) x (starts t)) (λ s'. ret 0 s'))
  run-waits t fuel p s {x} enough h at once all curr self =
      let e : s ≡ run_from s p =
        ap (λ (o : Option ℕ). record s { sched = record s.sched { curr_proc = o } }) curr in
      (
        go-started t fuel s enough h at once all,
        ap (proxc_run fuel (root t)) e
            ∙ run-from t fuel p s enough h at once all self
            ∙ ap (λ (u : State). yielded (run_waiting u p (root t) x (starts t)) (λ s'. ret 0 s'))
                (sym e),
      )
