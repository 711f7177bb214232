-- ===== src/Chan/System.antt =====
-- All channels in order at once, with the ready queue: what the scheduler and the channels keep true
-- together.
pub mod Moves
pub mod Calls
pub mod Rounds
pub mod Steps
use libproxc.Base.{
  ℕ, ◌≡◌, ◌≢◌, ◌⊎◌, sym, ap, ◌∙◌, refl, Option, true, false, none, some, List, [], ◌∷◌, ◌++◌, arith,
  ◌==◌, ==_iff, elem, distinct, All, All-mono, All-append, All-both, ==_refl, Bool-cases, inl, inr,
  update, ne_of_elem, distinct-snoc,
}
use mathlib.Core.Path.{subst}
use libproxc.Store.{State, Proc, ProcState, ChanEnd, ChanEndType, Chan}
use libproxc.Chan.Ops.Open.{EndAt, AlterAt, IsOpen, Caller}
use libproxc.Chan.Ops.Open.Frames.{EndAt-frame, EndAt-ne, AlterAt-frame}

-- The channel of a ChanEnd.
abbrev pub end_chan : Option ChanEnd → Option ℕ
end_chan none = none
end_chan (some e) = e.chan

-- The PROC is allocated, in state READY.
abbrev pub ReadyAt : (ℕ → Option Proc) → ℕ → Type 0
ReadyAt procs p = (proc : Proc) × (procs p ≡ some proc) × (proc.state ≡ ProcState.ready)

-- A channel is in order, and its ends are ends of this channel.
abbrev pub ChanInOrder : (ℕ → ℕ) → State → (c : ℕ) → Chan → Type 0
ChanInOrder alt_of s c chan =
    (type : ChanEndType) × IsOpen alt_of s c chan type
    × All (λ x. end_chan (s.ends x) ≡ some c) chan.end_q

pub record InOrder (alt_of : ℕ → ℕ) (s : State) : Type 0 where
  pub once : distinct s.sched.ready_q ≡ true
  pub ready : All (ReadyAt s.procs) s.sched.ready_q
  pub chans : (c : ℕ) (chan : Chan) → s.chans c ≡ some chan → ChanInOrder alt_of s c chan

-- Who runs is not ready.
pub out_of_ready :
    (procs : ℕ → Option Proc) (q : List ℕ) {p : ℕ} {proc : Proc}
    → procs p ≡ some proc
    → proc.state ≢ ProcState.ready
    → All (ReadyAt procs) q
    → elem p q ≡ false
out_of_ready procs [] at busy h = refl
out_of_ready procs (x ∷ q) {p} {proc} at busy ((px, at_x, is), h) = elim (Bool-cases (p == x)) [
  | inl same ↦
      let eq : p ≡ x = (==_iff p x).0 same in
      let both : some proc ≡ some px = sym at ∙ ap procs eq ∙ at_x in absurd (busy (cc (is)))
  | inr other ↦ rw (other, out_of_ready procs q at busy h)
]

pub InOrder-Caller :
    {alt_of : ℕ → ℕ} {s : State} {self : ℕ} {proc : Proc}
    → InOrder alt_of s
    → s.sched.curr_proc ≡ some self
    → s.procs self ≡ some proc
    → proc.state ≡ ProcState.running
    → Caller s self proc
InOrder-Caller {s} h current at runs = record {
  current = current;
  at = at;
  runs = runs;
  out = out_of_ready s.procs s.sched.ready_q at (λ e. cc (runs)) h.ready;
}

-- The ready PROCs stay so when one changes that is not among them.
pub ready-frame :
    (procs : ℕ → Option Proc) (q : List ℕ) (p : ℕ) (v : Option Proc)
    → elem p q ≡ false
    → All (ReadyAt procs) q
    → All (ReadyAt (update procs p v)) q
ready-frame procs q p v out h =
    All-mono q (λ x m w. let (proc, at, is) = w in (proc, rw (ne_of_elem p x q out m) at, is)) h

-- One more PROC becomes ready.
pub ready-snoc :
    (procs : ℕ → Option Proc) (q : List ℕ) (p : ℕ) (proc : Proc)
    → elem p q ≡ false
    → proc.state ≡ ProcState.ready
    → All (ReadyAt procs) q
    → All (ReadyAt (update procs p (some proc))) (q ++ p ∷ [])
ready-snoc procs q p proc out is h =
    All-append _ q (p ∷ []) (ready-frame procs q p (some proc) out h)
      ((proc, rw (==_refl p), is), tt)

-- A channel is in order in another store in which it has not changed, if what waits at it still waits.
pub ChanInOrder-frame :
    {alt_of : ℕ → ℕ} {s : State} (s' : State) (c : ℕ) {chan : Chan}
    → s'.chans c ≡ some chan
    → ((type : ChanEndType) (x : ℕ)
        → end_chan (s.ends x) ≡ some c
        → EndAt s.ends s.procs s.sched.ready_q type x
        → EndAt s'.ends s'.procs s'.sched.ready_q type x × (end_chan (s'.ends x) ≡ some c))
    → ((x : ℕ)
        → AlterAt alt_of s.guards s.alts s.procs s.sched.ready_q x
        → AlterAt alt_of s'.guards s'.alts s'.procs s'.sched.ready_q x)
    → ChanInOrder alt_of s c chan
    → ChanInOrder alt_of s' c chan
ChanInOrder-frame {s} s' c {chan} at ends alters (type, h, on) =
    let both = All-both _ _ chan.end_q h.ends on in
    (
      type,
      record {
        at = at;
        side = h.side;
        ends = All-mono chan.end_q (λ x m w. (ends type x w.1 w.0).0) both;
        once = h.once;
        alters = All-mono chan.alt_q (λ x m w. alters x w) h.alters;
      },
      All-mono chan.end_q (λ x m w. (ends type x w.1 w.0).1) both,
    )
