-- ===== src/Scheduler/Queues/Many.antt =====
-- scheduler_addready for several PROCs, one after the other.
use libproxc.Base.{
  ℕ, ◌≡◌, sym, ◌∙◌, ap, fun_ext, true, false, Option, none, some, List, [], ◌∷◌, ◌++◌, arith, elem,
  ◌==◌, ==_iff, Bool-cases, inl, inr, distinct, distinct-uncons, ne_of_elem, All, All-mono,
  append-nil, append_assoc, elem-append, if◌then◌else◌,
}
use mathlib.Core.Path.{subst}
use libproxc.Platform.{Platform}
use libproxc.Store.{State, Proc, ProcState, ret}
use libproxc.Scheduler.Queues.{scheduler_addready}
use libproxc.Scheduler.Queues.Fifo.{readied, addready_lem}
use libproxc.Csp.Build.{for_each}

abbrev pub in_state : ProcState → Option Proc → Option Proc
in_state st none = none
in_state st (some proc) = some (record proc { state = st })

-- The PROC `p` is allocated, and not in the ready queue `q`.
pub record Addable (procs : ℕ → Option Proc) (q : List ℕ) (p : ℕ) : Type 0 where
  pub held : Proc
  pub at : procs p ≡ some held
  pub out : elem p q ≡ false

abbrev pub all_readied : State → List ℕ → State
all_readied s ps = record s {
  procs = λ q. if elem q ps then in_state ProcState.ready (s.procs q) else s.procs q;
  sched = record s.sched { ready_q = s.sched.ready_q ++ ps };
}

all_readied-nil : (s : State) → s ≡ all_readied s []
all_readied-nil s =
    ap (λ (q : List ℕ). record s { sched = record s.sched { ready_q = q } })
      (sym (append-nil s.sched.ready_q))

procs-next :
    (s : State) (p : ℕ) (ps : List ℕ) {proc : Proc}
    → s.procs p ≡ some proc
    → elem p ps ≡ false
    → (q : ℕ) → (all_readied (readied s p proc) ps).procs q ≡ (all_readied s (p ∷ ps)).procs q
procs-next s p ps {proc} at out q = elim (Bool-cases (p == q)) [
  | inl here ↦
      let e = (==_iff p q).0 here in
      let out' : elem q ps ≡ false = subst (λ z. elem z ps ≡ false) e out in
      let at' : s.procs q ≡ some proc = subst (λ z. s.procs z ≡ some proc) e at in
      let back : (q == p) ≡ true = ground (arith, here) in rw (here, back, out', at')
  | inr ne ↦ let back : (q == p) ≡ false = ground (arith, ne) in rw (ne, back)
]

all_readied-next :
    (s : State) (p : ℕ) (ps : List ℕ) {proc : Proc}
    → s.procs p ≡ some proc
    → elem p ps ≡ false
    → all_readied (readied s p proc) ps ≡ all_readied s (p ∷ ps)
all_readied-next s p ps at out =
    ap
      (λ (f : ℕ → Option Proc). record s {
        procs = f;
        sched = record s.sched { ready_q = (s.sched.ready_q ++ p ∷ []) ++ ps };
      })
      (fun_ext (procs-next s p ps at out))
    ∙ ap
        (λ (l : List ℕ). record s {
          procs = (all_readied s (p ∷ ps)).procs;
          sched = record s.sched { ready_q = l };
        })
        (append_assoc s.sched.ready_q (p ∷ []) ps)

module _ ⦃v : Platform⦄ where
  pub addready_all :
      (ps : List ℕ) (s : State)
      → distinct ps ≡ true
      → All (Addable s.procs s.sched.ready_q) ps
      → for_each scheduler_addready ps s ≡ ret tt (all_readied s ps)
  unfolding for_each
  addready_all [] s once all = ap (λ (u : State). ret tt u) (all_readied-nil s)
  addready_all (p ∷ ps) s once (h, all) =
      let (new, once') = distinct-uncons p ps once in
      rw (addready_lem s h.at h.out) (
        addready_all ps (readied s p h.held) once' (
          All-mono ps
            (λ c m w.
              let ne = ne_of_elem p c ps new m in
              record {
                held = w.held;
                at = rw (ne) w.at;
                out = elem-append c s.sched.ready_q (p ∷ []) ∙ ground (arith, w.out, ne);
              })
            all)
        ∙ ap (λ (u : State). ret tt u) (all_readied-next s p ps h.at new))
