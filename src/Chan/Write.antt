-- ===== src/Chan/Write.antt =====
-- chan_write, branch by branch.
use libproxc.Base.{ℕ, ◌≡◌, refl, true, false, some, List, [], ◌∷◌, ◌==◌, elem, ◌⊎◌, inl, inr}
use libproxc.Platform.{Platform}
use libproxc.Store.{State, Proc, ChanEndType, Chan, ret, yielded}
use libproxc.Scheduler.Queues.{scheduler_addready}
use libproxc.Scheduler.Queues.Fifo.{readied, addready_lem}
use libproxc.Chan.Copy.{chan_copydata}
use libproxc.Chan.Ops.{is_reader, first_end, write_alt, chan_write}
use libproxc.Chan.Ops.Open.{EndAt, IsOpen, Caller}
use libproxc.Chan.Ops.Open.Frames.{not-elem-ends}
use libproxc.Chan.Ops.Parts.{
  with_chan, handed, waiting, wait_rest, no_first, first_end-cons, remove_end-cons, copydata_lem,
  wait_end_lem,
}

module _ ⦃v : Platform⦄ (s : State) (c dat size : ℕ) {chan : Chan} (at : s.chans c ≡ some chan)
    (sized : (size == chan.data_size) ≡ true) where
  -- The data goes to an alternation.
  pub write-alter :
      {s' : State} → write_alt c dat size s ≡ ret true s' → chan_write c dat size s ≡ ret 1 s'
  unfolding chan_write
  write-alter e = rw (at, sized, e)

  module _ (no_alter : write_alt c dat size s ≡ ret false s) where
    -- The data goes to the reader that has waited longest.
    pub write-reader :
        {e : ℕ} {q : List ℕ}
        → chan.end_q ≡ e ∷ q
        → (h : EndAt s.ends s.procs s.sched.ready_q ChanEndType.reader e)
        → chan_write c dat size s
          ≡ ret 1 (
              handed
                (with_chan s c (record chan { end_q = q }))
                e
                h.proc
                h.chan_end.data_ptr
                dat
                size)
    unfolding chan_write
    write-reader {e} {q} first h =
        let t : State = record (with_chan s c (record chan { end_q = q })) {
          bytes = chan_copydata s.bytes h.chan_end.data_ptr dat size;
        } in
        let ready : scheduler_addready e t ≡ ret tt (readied t e h.proc) =
          addready_lem t h.proc_at h.out in
        let found : first_end is_reader c s ≡ ret (some e) s =
          rw (first_end-cons s c is_reader at first h.at, h.typed) in
        let removed = remove_end-cons s c at first in
        rw (at, sized, no_alter, found, removed, h.at, copydata_lem, h.owner) (rw ready)

    -- No reader waits: the caller waits as a writer, and returns 1 when it is resumed.
    pub write-waits :
        {self : ℕ} {proc : Proc} {type : ChanEndType} {alt_of : ℕ → ℕ}
        → (h : IsOpen alt_of s c chan type) → (caller : Caller s self proc)
        → (chan.end_q ≡ []) ⊎ (type ≡ ChanEndType.writer)
        → chan_write c dat size s
          ≡ yielded (waiting s ChanEndType.writer c dat self chan proc) (wait_rest self)
    unfolding chan_write
    write-waits {self} {proc} {type} h caller side =
        let out : elem self chan.end_q ≡ false =
          not-elem-ends s type chan.end_q caller.at (λ e. cc (caller.runs)) h.ends in
        let none_reads : (chan.end_q ≡ []) ⊎ (is_reader type ≡ false) = elim side [
          | inl nil ↦ inl nil
          | inr w ↦ inr (rw w)
        ] in
        let wait = wait_end_lem s ChanEndType.writer c dat at caller.current caller.at out in
        rw (at, sized, no_alter, no_first s c h is_reader chan.end_q refl none_reads) wait
