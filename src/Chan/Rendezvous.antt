-- ===== src/Chan/Rendezvous.antt =====
-- A whole communication: one PROC reads and waits, another writes, the first goes on.
use libproxc.Base.{
  ℕ, ◌+◌, ◌≤◌, ◌≡◌, refl, ◌⊎◌, inl, false, some, [], ◌∷◌, ◌++◌, ◌==◌, ==_refl, update,
}
use libproxc.Platform.{Platform}
use libproxc.Store.{State, Proc, ProcState, ChanEndType, Chan, Run, ret, yielded}
use libproxc.Chan.Copy.Bytes.{IsBytes, overwrite, copydata-overwrite}
use libproxc.Chan.Ops.{chan_write, chan_read}
use libproxc.Chan.Ops.Open.{EndAt, IsOpen, Caller}
use libproxc.Chan.Ops.Parts.{waiting, waiting_end, handed, with_chan, write_alt-nil, wait_rest}
use libproxc.Chan.Write.{write-reader, write-waits}
use libproxc.Chan.Read.{read-writer, read-waits}

-- The store `s` while the PROC `w` runs, which has left the bytes `m`.
abbrev pub running : State → (w : ℕ) → Proc → (ℕ → ℕ) → State
running s w proc m = record s {
  procs = update s.procs w (some (record proc { state = ProcState.running }));
  bytes = m;
  sched = record s.sched { curr_proc = some w };
}

-- The channel has been left empty, the PROC `p` is the last to be ready, the bytes at `src` are also
-- at `dst`, and the other bytes are those of `m`.
pub record Met (s s' : State) (c p dst src size : ℕ) (m : ℕ → ℕ) : Type 0 where
  pub copied : (a : ℕ) → s'.bytes a ≡ overwrite m m dst src size a
  pub queued : s'.sched.ready_q ≡ s.sched.ready_q ++ p ∷ []
  pub empty : (chan : Chan) × (s'.chans c ≡ some chan) × (chan.end_q ≡ [])

-- The end that `p` has put into the queue is still there while `w` runs.
waiting-EndAt :
    (s : State) (type : ChanEndType) (c dat : ℕ) (chan : Chan) {p : ℕ} {proc : Proc} (w : ℕ)
    (proc_w : Proc) (m : ℕ → ℕ)
    → Caller s p proc
    → (w == p) ≡ false
    → let s' = running (waiting s type c dat p chan proc) w proc_w m in
      EndAt s'.ends s'.procs s'.sched.ready_q type p
waiting-EndAt s type c dat chan {p} {proc} w proc_w m caller ne = record {
  chan_end = waiting_end type c dat p;
  at = rw (==_refl p);
  typed = refl;
  owner = refl;
  proc = record proc { state = ProcState.chanwait };
  proc_at = rw (ne, ==_refl p);
  waits = refl;
  out = caller.out;
}

module _ ⦃v : Platform⦄ {alt_of : ℕ → ℕ} {s : State} {c : ℕ} {chan : Chan} {type : ChanEndType}
    {p : ℕ} {proc : Proc} (buf dat w : ℕ) (proc_w : Proc) (h : IsOpen alt_of s c chan type)
    (caller : Caller s p proc) (no_end : chan.end_q ≡ []) (m : ℕ → ℕ) (bytes : IsBytes m)
    (other : (w == p) ≡ false) where
  -- On a channel in order with no ends and no alternations, a read of the channel's size by the running
  -- PROC waits. A write of the channel's size by another PROC, from memory that holds bytes, then
  -- returns 1, leaves the queue of ends empty, copies the written bytes to where the reader wants
  -- them (the two places being apart) and makes the reader ready; resumed after it, the read returns 1.
  pub read-then-write :
      chan.alt_q ≡ []
      → (buf + chan.data_size ≤ dat) ⊎ (dat + chan.data_size ≤ buf)
      → (s1 s2 s3 : State) × (k : State → Run ℕ) × (chan_read c buf chan.data_size s ≡ yielded s1 k)
        × (chan_write c dat chan.data_size (running s1 w proc_w m) ≡ ret 1 s2)
        × Met s s2 c p buf dat chan.data_size m
        × (k s2 ≡ ret 1 s3)
  unfolding waiting-EndAt
  read-then-write no_alt apart =
      let s1 : State = waiting s ChanEndType.reader c buf p chan proc in
      let now : State = running s1 w proc_w m in
      let joined : Chan = record chan { end_q = chan.end_q ++ p ∷ [] } in
      let first : joined.end_q ≡ p ∷ [] = rw no_end in
      let end = waiting-EndAt s ChanEndType.reader c buf chan w proc_w m caller other in
      let at : now.chans c ≡ some joined = rw (==_refl c) in
      let none = write_alt-nil now c dat chan.data_size at no_alt in
      (
        s1,
        handed (with_chan now c (record joined { end_q = [] })) p end.proc buf dat chan.data_size,
        _,
        wait_rest p,
        read-waits s c buf chan.data_size h.at (==_refl chan.data_size) h caller (inl no_end),
        write-reader now c dat chan.data_size at (==_refl chan.data_size) none first end,
        record {
          copied = copydata-overwrite m buf dat chan.data_size bytes apart;
          queued = refl;
          empty = (record joined { end_q = [] }, rw (==_refl c), refl);
        },
        refl,
      )

  -- On a channel in order with no ends and no alternations, a write of the channel's size by the running
  -- PROC waits. A read of the channel's size by another PROC, from memory that holds bytes, then
  -- returns 1, leaves the queue of ends empty, copies the bytes of the writer to where the reader
  -- wants them (the two places being apart) and makes the writer ready; resumed after it, the write
  -- returns 1.
  pub write-then-read :
      chan.alt_q ≡ []
      → (buf + chan.data_size ≤ dat) ⊎ (dat + chan.data_size ≤ buf)
      → (s1 s2 s3 : State) × (k : State → Run ℕ) × (chan_write c dat chan.data_size s
          ≡ yielded s1 k)
        × (chan_read c buf chan.data_size (running s1 w proc_w m) ≡ ret 1 s2)
        × Met s s2 c p buf dat chan.data_size m
        × (k s2 ≡ ret 1 s3)
  unfolding waiting-EndAt
  write-then-read no_alt apart =
      let s1 : State = waiting s ChanEndType.writer c dat p chan proc in
      let now : State = running s1 w proc_w m in
      let joined : Chan = record chan { end_q = chan.end_q ++ p ∷ [] } in
      let first : joined.end_q ≡ p ∷ [] = rw no_end in
      let end = waiting-EndAt s ChanEndType.writer c dat chan w proc_w m caller other in
      let at : now.chans c ≡ some joined = rw (==_refl c) in
      let none = write_alt-nil s c dat chan.data_size h.at no_alt in
      (
        s1,
        handed (with_chan now c (record joined { end_q = [] })) p end.proc buf dat chan.data_size,
        _,
        wait_rest p,
        write-waits s c dat chan.data_size h.at (==_refl chan.data_size) none h caller (inl no_end),
        read-writer now c buf chan.data_size at (==_refl chan.data_size) first end,
        record {
          copied = copydata-overwrite m buf dat chan.data_size bytes apart;
          queued = refl;
          empty = (record joined { end_q = [] }, rw (==_refl c), refl);
        },
        refl,
      )
