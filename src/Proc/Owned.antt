-- ===== src/Proc/Owned.antt =====
-- proc_free on a PROC with no builder, or with one that GO has started by itself.
use libproxc.Base.{
  ℕ, suc, ◌≡◌, refl, sym, ap, ◌∙◌, Option, none, some, ◌==◌, ==_iff, Bool-cases, inl, inr, true,
  false, elem, erase, update,
}
use libproxc.Platform.{Platform}
use libproxc.Platform.Links.{tailq_remove_lem}
use libproxc.Store.{State, Proc, Builder, BuildType, proc_build, ret}
use libproxc.Csp.Build.{csp_free}
use libproxc.Csp.Finish.{cleanup_as, build_done, csp_cleanupbuild, csp_parsebuild}
use libproxc.Csp.Resume.{parse-done, parse-proc}
use libproxc.Proc.Life.{proc_free}

-- The builder `b` is a root, for the PROC `p`, and no PROC waits for it.
pub record Started (builds : ℕ → Option Builder) (p b : ℕ) : Type 0 where
  pub build : Builder
  pub at : builds b ≡ some build
  pub typed : build.type ≡ proc_build
  pub is_root : build.is_root ≡ true
  pub no_waiter : build.run_proc ≡ none
  pub own : build.proc ≡ some p

-- A PROC with no builder, as the main PROC, or with one of its own that GO has started.
abbrev pub Owned : (ℕ → Option Builder) → (p : ℕ) → Option ℕ → Type 0
Owned builds p none = Unit
Owned builds p (some b) = Started builds p b

abbrev pub unbuilt : Option ℕ → (ℕ → Option Builder) → ℕ → Option Builder
unbuilt none builds = builds
unbuilt (some b) builds = update builds b none

-- The store without the PROC `p`, and without the builder `o`, if it has one.
abbrev pub let_go : State → (p : ℕ) → Option ℕ → State
let_go s p o = record s {
  procs = update s.procs p none;
  builds = unbuilt o s.builds;
  sched = record s.sched { total_q = erase p s.sched.total_q };
}

same_build : {o : Option Builder} {x y : Builder} → o ≡ some x → o ≡ some y → x ≡ y
same_build {x} h k = ap (λ (q : Option Builder). elim q [ none ↦ x | some z ↦ z ]) (sym h ∙ k)

-- A builder is for one PROC.
pub Started-other :
    (builds : ℕ → Option Builder) (p b x c : ℕ)
    → (p == x) ≡ false
    → Started builds p b
    → Started builds x c
    → (b == c) ≡ false
Started-other builds p b x c ne h k = elim (Bool-cases (b == c)) [
  | inl here ↦
      let e : h.build ≡ k.build = same_build (ap builds (sym ((==_iff b c).0 here)) ∙ h.at) k.at in
      let both : some p ≡ some x = sym h.own ∙ ap (λ (y : Builder). y.proc) e ∙ k.own in
      let eq : p ≡ x = ap (λ (o : Option ℕ). elim o [ none ↦ p | some y ↦ y ]) both in
      absurd (cc (ne, (==_iff p x).1 eq))
  | inr other ↦ other
]

-- A PROC that is let go leaves the others their builders.
pub Owned-rest :
    (builds : ℕ → Option Builder) (p : ℕ) (o : Option ℕ) (x : ℕ) (o' : Option ℕ)
    → (p == x) ≡ false
    → Owned builds p o
    → Owned builds x o'
    → Owned (unbuilt o builds) x o'
Owned-rest builds p o x none ne h k = tt
Owned-rest builds p none x (some c) ne h k = k
Owned-rest builds p (some b) x (some c) ne h k = record {
  build = k.build;
  at = rw (Started-other builds p b x c ne h k) k.at;
  typed = k.typed;
  is_root = k.is_root;
  no_waiter = k.no_waiter;
  own = k.own;
}

-- What is not allocated stays so.
pub unbuilt-none :
    (builds : ℕ → Option Builder) (o : Option ℕ) (c : ℕ)
    → builds c ≡ none
    → unbuilt o builds c ≡ none
unbuilt-none builds none c e = e
unbuilt-none builds (some b) c e = elim (Bool-cases (b == c)) [
  | inl h ↦ rw (h)
  | inr ne ↦ rw (ne) e
]

module _ ⦃v : Platform⦄ where
  cleanup-leaf :
      (fuel : ℕ) (type : BuildType) (x : Builder) (b : ℕ) (s : State)
      → type ≡ proc_build
      → cleanup_as (csp_cleanupbuild fuel) type x b s ≡ ret tt s
  unfolding cleanup_as
  cleanup-leaf fuel type x b s e = rw (e)

  cleanupbuild-leaf :
      (fuel b : ℕ) (s : State) {x : Builder}
      → s.builds b ≡ some x
      → x.type ≡ proc_build
      → csp_cleanupbuild (suc fuel) b s ≡ ret tt (record s { builds = update s.builds b none })
  unfolding csp_cleanupbuild csp_free
  cleanupbuild-leaf fuel b s {x} at typed = rw (at, cleanup-leaf fuel x.type x b s typed, at)

  parsebuild-Started :
      (fuel p b : ℕ) (s : State)
      → Started s.builds p b
      → csp_parsebuild (suc (suc fuel)) b s ≡ ret tt (record s { builds = update s.builds b none })
  unfolding build_done
  parsebuild-Started fuel p b s h =
      parse-done (suc fuel) b s s h.at (parse-proc (suc fuel) h.build.type h.build b s h.typed)
      ∙ rw (h.at, h.is_root, h.no_waiter, cleanupbuild-leaf fuel b s h.at h.typed)

  proc_free-let_go_as :
      (fuel p : ℕ) (o : Option ℕ) (s : State) {proc : Proc}
      → s.procs p ≡ some proc
      → proc.proc_build ≡ o
      → Owned s.builds p o
      → elem p s.sched.total_q ≡ true
      → proc_free (suc (suc fuel)) (some p) s ≡ ret tt (let_go s p o)
  unfolding proc_free
  proc_free-let_go_as fuel p none s at build h linked =
      rw (at, tailq_remove_lem s.sched.total_q p, linked, build)
  proc_free-let_go_as fuel p (some b) s at build h linked =
      let t : State = record s { sched = record s.sched { total_q = erase p s.sched.total_q } } in
      rw (at, tailq_remove_lem s.sched.total_q p, linked, build, parsebuild-Started fuel p b t h)

  pub proc_free-let_go :
      (fuel p : ℕ) (s : State) {proc : Proc}
      → s.procs p ≡ some proc
      → Owned s.builds p proc.proc_build
      → elem p s.sched.total_q ≡ true
      → proc_free (suc (suc fuel)) (some p) s ≡ ret tt (let_go s p proc.proc_build)
  proc_free-let_go fuel p s {proc} at h linked =
      proc_free-let_go_as fuel p proc.proc_build s at refl h linked
