-- ===== src/Scheduler/Wakeup/Woken.antt =====
-- What the waking of a sleeping PROC changes.
use libproxc.Base.{
  ℕ, ◌≡◌, sym, ◌∙◌, true, false, Option, none, some, List, [], ◌∷◌, ◌++◌, append_assoc, arith, ◌==◌,
  ==_iff, if◌then◌else◌, elem, elem-append, length, Bool-cases, inl, inr,
}
use mathlib.Core.Path.{subst}
use libproxc.Store.{State, Proc, ProcState}
use libproxc.Scheduler.Queues.Fifo.{readied}
use libproxc.Scheduler.Sleep.{dec64, sleep_us_at}

abbrev pub woken : Option Proc → Option Proc
woken none = none
woken (some proc) = some (record proc { state = ProcState.ready })

-- A sleeper is a PROC that is not ready.
pub record Sleeper (s : State) (p : ℕ) : Type 0 where
  pub proc : Proc
  pub at : s.procs p ≡ some proc
  pub out : elem p s.sched.ready_q ≡ false

-- `s'` is `s` after the PROCs `ps` have been woken up, `left` being those that sleep on.
pub record Woken (s s' : State) (ps left : List ℕ) : Type 0 where
  pub tree : s'.sched.sleep_rb ≡ left
  pub num : s'.sched.sleep_num ≡ length left
  pub queued : s'.sched.ready_q ≡ s.sched.ready_q ++ ps
  pub procs : (q : ℕ) → s'.procs q ≡ (if elem q ps then woken (s.procs q) else s.procs q)
  pub rest : s' ≡ record s {
    procs = s'.procs;
    sched = record s.sched {
      ready_q = s'.sched.ready_q;
      sleep_num = s'.sched.sleep_num;
      sleep_rb = s'.sched.sleep_rb;
    };
  }

abbrev pub unslept : State → List ℕ → State
unslept s t = record s {
  sched = record s.sched { sleep_rb = t; sleep_num = dec64 s.sched.sleep_num };
}

-- After one round.
abbrev pub next : State → ℕ → Proc → List ℕ → State
next s p proc t = readied (unslept s t) p proc

pub next-key :
    (s : State) (p : ℕ) (proc : Proc) (t : List ℕ)
    → s.procs p ≡ some proc
    → (q : ℕ) → sleep_us_at (next s p proc t) q ≡ sleep_us_at s q
next-key s p proc t at q = elim (Bool-cases (p == q)) [
  | inl same ↦
      let eq : p ≡ q = (==_iff p q).0 same in
      let here : s.procs q ≡ some proc = subst (λ x. s.procs x ≡ some proc) eq at in
      rw (same, here, sleep_us_at)
  | inr other ↦ rw (other, sleep_us_at)
]

pub Sleeper-next :
    (s : State) (p : ℕ) (proc : Proc) (t : List ℕ) (y : ℕ)
    → (p == y) ≡ false
    → Sleeper s y
    → Sleeper (next s p proc t) y
Sleeper-next s p proc t y ne h = record {
  proc = h.proc;
  at = rw ne h.at;
  out = rw (elem-append y s.sched.ready_q (p ∷ []), h.out) (ground arith);
}

symm_ne : (p q : ℕ) → (p == q) ≡ false → (q == p) ≡ false
symm_ne p q h = ground (arith, ==_iff q p, ==_iff p q)

-- A PROC that has been woken up once is as it was woken up at the end.
woken-twice :
    (s : State) (p : ℕ) (proc : Proc) (t ps : List ℕ)
    → s.procs p ≡ some proc
    → (q : ℕ)
    → (if elem q ps then woken ((next s p proc t).procs q) else (next s p proc t).procs q)
      ≡ (if elem q (p ∷ ps) then woken (s.procs q) else s.procs q)
woken-twice s p proc t ps at q = elim (Bool-cases (p == q)) [
  | inl same ↦
      let eq : p ≡ q = (==_iff p q).0 same in
      let here : s.procs q ≡ some proc = subst (λ x. s.procs x ≡ some proc) eq at in
      let same' : (q == p) ≡ true = (==_iff q p).1 (sym eq) in rw (same, same', here) (ground arith)
  | inr other ↦ rw (other, symm_ne p q other)
]

pub Woken-next :
    (s s' : State) (p : ℕ) (proc : Proc) (t ps left : List ℕ)
    → s.procs p ≡ some proc
    → Woken (next s p proc t) s' ps left
    → Woken s s' (p ∷ ps) left
Woken-next s s' p proc t ps left at h = record {
  tree = h.tree;
  num = h.num;
  queued = h.queued ∙ append_assoc s.sched.ready_q (p ∷ []) ps;
  procs = λ q. h.procs q ∙ woken-twice s p proc t ps at q;
  rest = h.rest;
}
