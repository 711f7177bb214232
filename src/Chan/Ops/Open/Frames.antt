-- ===== src/Chan/Ops/Open/Frames.antt =====
-- What waits at a channel goes on waiting while other PROCs change.
use libproxc.Base.{
  ℕ, ◌≡◌, refl, sym, ap, ◌∙◌, ◌≢◌, Option, true, false, some, inl, inr, List, [], ◌∷◌, ◌++◌, ◌==◌,
  ==_iff, Bool-cases, elem, elem-append, All, update, update_ne, arith,
}
use libproxc.Store.{State, Proc, ProcState, ChanEnd, ChanEndType, Guard, Alt}
use libproxc.Chan.Ops.Open.{EndAt, AlterAt}

pub elem-snoc_ne :
    (p : ℕ) (q : List ℕ) (x : ℕ)
    → (p == x) ≡ false
    → elem x q ≡ false
    → elem x (q ++ p ∷ []) ≡ false
elem-snoc_ne p q x ne out = rw (elem-append x q (p ∷ []), out) (ground arith)

module _ {ends : ℕ → Option ChanEnd} {procs : ℕ → Option Proc} {ready : List ℕ} where
  -- A waiting end stays one when another PROC changes, and at most that one becomes ready.
  pub EndAt-frame :
      {ends' : ℕ → Option ChanEnd} {ready' : List ℕ} {type : ChanEndType} {e : ℕ} (p : ℕ)
      (v : Option Proc)
      → (p == e) ≡ false
      → ends' e ≡ ends e
      → (elem e ready ≡ false → elem e ready' ≡ false)
      → EndAt ends procs ready type e
      → EndAt ends' (update procs p v) ready' type e
  EndAt-frame {e} p v ne same still h = record {
    chan_end = h.chan_end;
    at = same ∙ h.at;
    typed = h.typed;
    owner = h.owner;
    proc = h.proc;
    proc_at = update_ne procs p e v ne ∙ h.proc_at;
    waits = h.waits;
    out = still h.out;
  }

  -- A PROC that does not wait at a channel is not among the ends.
  pub EndAt-ne :
      {type : ChanEndType} {e p : ℕ} {proc : Proc}
      → EndAt ends procs ready type e
      → procs p ≡ some proc
      → proc.state ≢ ProcState.chanwait
      → (p == e) ≡ false
  EndAt-ne {e} {p} {proc} h pa busy = elim (Bool-cases (p == e)) [
    | inl same ↦
        let eq : p ≡ e = (==_iff p e).0 same in
        let both : some proc ≡ some h.proc = sym pa ∙ ap procs eq ∙ h.proc_at in
        absurd (busy (cc h.waits))
    | inr other ↦ other
  ]

pub not-elem-ends :
    (s : State) (type : ChanEndType) {p : ℕ} {proc : Proc} (q : List ℕ)
    → s.procs p ≡ some proc
    → proc.state ≢ ProcState.chanwait
    → All (EndAt s.ends s.procs s.sched.ready_q type) q
    → elem p q ≡ false
not-elem-ends s type [] pa busy h = refl
not-elem-ends s type (e ∷ q) pa busy h =
    rw (EndAt-ne h.0 pa busy) (not-elem-ends s type q pa busy h.1)

module _ {alt_of : ℕ → ℕ} {guards : ℕ → Option Guard} {alts : ℕ → Option Alt}
    {procs : ℕ → Option Proc} {ready : List ℕ} where
  -- A guard with what it refers to in another store.
  abbrev with_alt :
      {x : ℕ} {alts' : ℕ → Option Alt} {procs' : ℕ → Option Proc} {ready' : List ℕ}
      → (h : AlterAt alt_of guards alts procs ready x) → (alt : Alt) → alts' h.a ≡ some alt
      → (proc : Proc) → procs' h.p ≡ some proc
      → (alt.is_accepted ≡ false → proc.state ≡ ProcState.altwait)
      → (alt.is_accepted ≡ false → elem h.p ready' ≡ false)
      → AlterAt alt_of guards alts' procs' ready' x
  with_alt h alt alt_at proc proc_at waits out = record {
    guard = h.guard;
    at = h.at;
    own = h.own;
    a = h.a;
    member = h.member;
    alt = alt;
    alt_at = alt_at;
    p = h.p;
    only = h.only;
    alter = h.alter;
    proc = proc;
    proc_at = proc_at;
    waits = waits;
    out = out;
  }

  -- A guard's alternation goes on waiting when a PROC changes that is not in an alternation.
  pub AlterAt-frame :
      {ready' : List ℕ} {g : ℕ} (p : ℕ) {proc : Proc} (v : Proc)
      → ((x : ℕ) → (p == x) ≡ false → elem x ready ≡ false → elem x ready' ≡ false)
      → procs p ≡ some proc
      → proc.state ≢ ProcState.altwait
      → AlterAt alt_of guards alts procs ready g
      → AlterAt alt_of guards alts (update procs p (some v)) ready' g
  AlterAt-frame p {proc} v still pa busy h = elim (Bool-cases (p == h.p)) [
    | inl same ↦
        let eq : p ≡ h.p = (==_iff p h.p).0 same in
        let both : some proc ≡ some h.proc = sym pa ∙ ap procs eq ∙ h.proc_at in
        let never : h.alt.is_accepted ≡ false → ⊥ = λ f. busy (cc (h.waits f)) in
        with_alt h h.alt h.alt_at v (rw same) (λ f. absurd (never f)) (λ f. absurd (never f))
    | inr other ↦
        with_alt h h.alt h.alt_at h.proc (rw other h.proc_at) h.waits
          (λ f. still h.p other (h.out f))
  ]

  -- It stays in order when its own alternation, or another, accepts a guard.
  pub AlterAt-accepted :
      {g x : ℕ} (v : Proc) (new : Alt)
      → (first : AlterAt alt_of guards alts procs ready g) → new.is_accepted ≡ true
      → AlterAt alt_of guards alts procs ready x
      → AlterAt alt_of guards
          (update alts first.a (some new))
          (update procs first.p (some v))
          (ready ++ first.p ∷ [])
          x
  AlterAt-accepted v new first done h = elim (Bool-cases (first.a == h.a)) [
    | inl same ↦ elim (Bool-cases (first.p == h.p)) [
      | inl one ↦ with_alt h new (rw same) v (rw one) (λ f. cc) (λ f. cc)
      | inr two ↦ with_alt h new (rw same) h.proc (rw two h.proc_at) (λ f. cc) (λ f. cc)
    ]
    | inr other ↦
        let apart : (first.p == h.p) ≡ false = ground (arith, h.only, first.only) in
        with_alt h h.alt (rw other h.alt_at) h.proc (rw apart h.proc_at) h.waits
          (λ f. elem-snoc_ne first.p ready h.p apart (h.out f))
  ]
