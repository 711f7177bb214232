-- ===== src/Csp/Start.antt =====
-- Starting a tree makes ready, in order, the PROCs that it begins with: all parts of a PAR, the first
-- part of a SEQ.
use libproxc.Base.{
  ℕ, zero, suc, ◌≤◌, ◌≡◌, refl, sym, ◌∙◌, ap, Option, some, List, [], ◌∷◌, ◌++◌, arith, elem,
  Bool-cases, inl, inr, Option-cases, fun_ext,
}
use Prim.Native.Nat.{max}
use mathlib.Core.Path.{subst}
use libproxc.Platform.{Platform}
use libproxc.Store.{
  State, proc_build, par_build, seq_build, Builder, M, Run, ret, fault, yielded, bind_run,
}
use libproxc.Scheduler.Queues.{scheduler_addready}
use libproxc.Scheduler.Queues.Fifo.{addready-eq_ite, addready_none}
use libproxc.Csp.Build.{for_each, runbuild_as, csp_runbuild}

-- A tree of builders: the address of each, and of the PROC at a leaf. A SEQ has a first part.
mutual
  pub data Tree : Type 0 where
    proc : (b p : ℕ) → Tree
    par : (b : ℕ) → Forest → Tree
    seq : (b : ℕ) → Tree → Forest → Tree

  pub data Forest : Type 0 where
    nil : Forest
    cons : Tree → Forest → Forest

abbrev pub root : Tree → ℕ
root (proc b p) = b
root (par b ts) = b
root (seq b t ts) = b

abbrev pub roots : Forest → List ℕ
roots nil = []
roots (cons t ts) = root t ∷ roots ts

-- The PROCs that a tree begins with.
unfoldable mutual
  pub starts : Tree → List ℕ
  starts (proc b p) = p ∷ []
  starts (par b ts) = starts_all ts
  starts (seq b t ts) = starts t

  pub starts_all : Forest → List ℕ
  starts_all nil = []
  starts_all (cons t ts) = starts t ++ starts_all ts

unfoldable mutual
  pub depth : Tree → ℕ
  depth (proc b p) = 1
  depth (par b ts) = suc (depth_all ts)
  depth (seq b t ts) = suc (max (depth t) (depth_all ts))

  pub depth_all : Forest → ℕ
  depth_all nil = 0
  depth_all (cons t ts) = max (depth t) (depth_all ts)

-- The store holds the tree, and no part of it has been finished.
unfoldable mutual
  pub Stored : (ℕ → Option Builder) → Tree → Type 0
  Stored builds (proc b p) =
      (x : Builder) × (builds b ≡ some x) × (x.type ≡ proc_build) × (x.proc ≡ some p)
  Stored builds (par b ts) =
      (x : Builder) × (builds b ≡ some x)
      × (x.type ≡ par_build)
      × (x.child_q ≡ roots ts)
      × StoredAll builds ts
  Stored builds (seq b t ts) =
      (x : Builder) × (builds b ≡ some x)
      × (x.type ≡ seq_build)
      × (x.child_q ≡ root t ∷ roots ts)
      × (x.curr_build ≡ some (root t))
      × Stored builds t
      × StoredAll builds ts

  pub StoredAll : (ℕ → Option Builder) → Forest → Type 0
  StoredAll builds nil = Unit
  StoredAll builds (cons t ts) = Stored builds t × StoredAll builds ts

-- A run that does not stop at a yield, and leaves the builders as they are.
abbrev KeepsBuilds : (ℕ → Option Builder) → Run (Unit {0}) → Type 0
KeepsBuilds builds (ret _ s) = s.builds ≡ builds
KeepsBuilds builds (fault _) = Unit
KeepsBuilds builds (yielded _ _) = ⊥

bind_cong :
    {builds : ℕ → Option Builder} (r : Run (Unit {0})) (f g : M (Unit {0}))
    → KeepsBuilds builds r
    → ((s : State) → s.builds ≡ builds → f s ≡ g s)
    → bind_run r (λ _. f) ≡ bind_run r (λ _. g)
bind_cong (ret _ s) f g keep same = same s keep
bind_cong (fault e) f g keep same = refl
bind_cong (yielded s k) f g keep same = absurd keep

bind-KeepsBuilds :
    {builds : ℕ → Option Builder} (r : Run (Unit {0})) (f : M (Unit {0}))
    → KeepsBuilds builds r
    → ((s : State) → s.builds ≡ builds → KeepsBuilds builds (f s))
    → KeepsBuilds builds (bind_run r (λ _. f))
bind-KeepsBuilds (ret _ s) f keep next = next s keep
bind-KeepsBuilds (fault e) f keep next = tt
bind-KeepsBuilds (yielded s k) f keep next = absurd keep

bind_assoc :
    (r : Run (Unit {0})) (f g : M (Unit {0}))
    → bind_run (bind_run r (λ _. f)) (λ _. g) ≡ bind_run r (λ _ s. bind_run (f s) (λ _. g))
bind_assoc (ret _ s) f g = refl
bind_assoc (fault e) f g = refl
bind_assoc (yielded s k) f g = ap (yielded s) (fun_ext λ s'. bind_assoc (k s') f g)

bind_unit : (r : Run (Unit {0})) → bind_run r (λ _ s. ret tt s) ≡ r
bind_unit (ret _ s) = refl
bind_unit (fault e) = refl
bind_unit (yielded s k) = ap (yielded s) (fun_ext λ s'. bind_unit (k s'))

module _ ⦃v : Platform⦄ where
  addready-KeepsBuilds : (p : ℕ) (s : State) → KeepsBuilds s.builds (scheduler_addready p s)
  addready-KeepsBuilds p s = elim (Option-cases (s.procs p)) [
    | inl e ↦ rw (addready_none s p e) tt
    | inr (pr, e) ↦ elim (Bool-cases (elem p s.sched.ready_q)) [
      | inl linked ↦ rw (addready-eq_ite s e, linked) tt
      | inr out ↦ rw (addready-eq_ite s e, out) refl
    ]
  ]

  all-KeepsBuilds :
      (ps : List ℕ) (s : State) → KeepsBuilds s.builds (for_each scheduler_addready ps s)
  unfolding for_each
  all-KeepsBuilds [] s = refl
  all-KeepsBuilds (p ∷ ps) s =
      bind-KeepsBuilds (scheduler_addready p s) (for_each scheduler_addready ps)
        (addready-KeepsBuilds p s)
        (λ s' e.
          subst (λ b. KeepsBuilds b (for_each scheduler_addready ps s')) e (all-KeepsBuilds ps s'))

  for_each-append :
      (act : ℕ → M (Unit {0})) (xs ys : List ℕ) (s : State)
      → for_each act (xs ++ ys) s ≡ bind_run (for_each act xs s) (λ _. for_each act ys)
  unfolding for_each
  for_each-append act [] ys s = refl
  for_each-append act (x ∷ xs) ys s =
      ap (bind_run (act x s)) (fun_ext λ _. fun_ext λ s'. for_each-append act xs ys s')
      ∙ sym (bind_assoc (act x s) (for_each act xs) (for_each act ys))

  mutual
    unfolding csp_runbuild runbuild_as for_each starts depth Stored

    run-starts :
        (t : Tree) (fuel : ℕ) (s : State)
        → depth t ≤ fuel
        → Stored s.builds t
        → csp_runbuild fuel (root t) s ≡ for_each scheduler_addready (starts t) s
    run-starts (proc b p) zero s enough h = absurd (omega arith)
    run-starts (proc b p) (suc fuel) s enough (x, at, type, is) =
        rw (at, type, is) (sym (bind_unit (scheduler_addready p s)))
    run-starts (par b ts) zero s enough h = absurd (omega arith)
    run-starts (par b ts) (suc fuel) s enough (x, at, type, childs, all) =
        rw (at, type, childs) (run_all-starts ts fuel s (omega arith) all)
    run-starts (seq b t ts) zero s enough h = absurd (omega arith)
    run-starts (seq b t ts) (suc fuel) s enough (x, at, type, childs, curr, first, all) =
        rw (at, type, curr) (run-starts t fuel s (omega arith) first)

    run_all-starts :
        (ts : Forest) (fuel : ℕ) (s : State)
        → depth_all ts ≤ fuel
        → StoredAll s.builds ts
        → for_each (csp_runbuild fuel) (roots ts) s ≡ for_each scheduler_addready (starts_all ts) s
    run_all-starts nil fuel s enough h = refl
    run_all-starts (cons t ts) fuel s enough (h, hs) =
        ap (λ r. bind_run r (λ _. for_each (csp_runbuild fuel) (roots ts)))
          (run-starts t fuel s (omega arith) h)
        ∙ bind_cong (for_each scheduler_addready (starts t) s)
            (for_each (csp_runbuild fuel) (roots ts)) (for_each scheduler_addready (starts_all ts))
            (all-KeepsBuilds (starts t) s)
            (λ s' e.
              run_all-starts ts fuel s' (omega arith) (subst (λ b. StoredAll b ts) (sym e) hs))
        ∙ sym (for_each-append scheduler_addready (starts t) (starts_all ts) s)

  -- Where the store holds a tree, and the recursion may go as deep as the tree is, to run the tree is
  -- to make ready the PROCs that it begins with, one after the other: the same store is reached, or
  -- the same fault.
  pub runbuild-starts :
      (t : Tree) (fuel : ℕ) (s : State)
      → depth t ≤ fuel
      → Stored s.builds t
      → csp_runbuild fuel (root t) s ≡ for_each scheduler_addready (starts t) s
  runbuild-starts t fuel s enough h = run-starts t fuel s enough h
