-- ===== src/Chan/Ops/Open.antt =====
-- Channels in order: what the runtime keeps true of the two queues of a channel.
pub mod Frames
use libproxc.Base.{ℕ, ◌≡◌, ◌⊎◌, Option, true, false, some, List, elem, distinct, All}
use libproxc.Store.{State, Proc, ProcState, ChanEnd, ChanEndType, Chan, Guard, Alt}

-- `e` waits in an end queue: its ChanEnd is of the given type, its PROC waits and is not ready.
pub record EndAt (ends : ℕ → Option ChanEnd) (procs : ℕ → Option Proc) (ready : List ℕ)
    (type : ChanEndType) (e : ℕ) : Type 0 where
  pub chan_end : ChanEnd
  pub at : ends e ≡ some chan_end
  pub typed : chan_end.type ≡ type
  pub owner : chan_end.proc ≡ some e
  pub proc : Proc
  pub proc_at : procs e ≡ some proc
  pub waits : proc.state ≡ ProcState.chanwait
  pub out : elem e ready ≡ false

-- The guard `g` stands in an alternation queue. As long as its alternation has accepted no guard, the
-- PROC of the alternation waits and is not ready. A PROC is in one alternation at a time, `alt_of p`.
pub record AlterAt (alt_of : ℕ → ℕ) (guards : ℕ → Option Guard) (alts : ℕ → Option Alt)
    (procs : ℕ → Option Proc) (ready : List ℕ) (g : ℕ) : Type 0 where
  pub guard : Guard
  pub at : guards g ≡ some guard
  pub own : guard.ch_end.guard ≡ some g
  pub a : ℕ
  pub member : guard.alt ≡ some a
  pub alt : Alt
  pub alt_at : alts a ≡ some alt
  pub p : ℕ
  pub only : alt_of p ≡ a
  pub alter : guard.ch_end.proc ≡ some p
  pub proc : Proc
  pub proc_at : procs p ≡ some proc
  pub waits : alt.is_accepted ≡ false → proc.state ≡ ProcState.altwait
  pub out : alt.is_accepted ≡ false → elem p ready ≡ false

-- The waiting ends are all writers or all readers, each once.
pub record IsOpen (alt_of : ℕ → ℕ) (s : State) (c : ℕ) (chan : Chan) (type : ChanEndType)
    : Type 0 where
  pub at : s.chans c ≡ some chan
  pub side : (type ≡ ChanEndType.writer) ⊎ (type ≡ ChanEndType.reader)
  pub ends : All (EndAt s.ends s.procs s.sched.ready_q type) chan.end_q
  pub once : distinct chan.end_q ≡ true
  pub alters : All (AlterAt alt_of s.guards s.alts s.procs s.sched.ready_q) chan.alt_q

-- The PROC that calls: it runs, and is not ready.
pub record Caller (s : State) (self : ℕ) (proc : Proc) : Type 0 where
  pub current : s.sched.curr_proc ≡ some self
  pub at : s.procs self ≡ some proc
  pub runs : proc.state ≡ ProcState.running
  pub out : elem self s.sched.ready_q ≡ false
