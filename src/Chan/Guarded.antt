-- ===== src/Chan/Guarded.antt =====
-- The guards of alternations on a channel: chan_altenable, chan_altdisable and chan_altread.
use libproxc.Base.{
  ℕ, ◌≡◌, refl, Option, elem-append, erase-snoc, head?, true, false, none, some, List, [], ◌∷◌,
  ◌++◌, arith, ◌==◌, ==_refl, ap, fun_ext, elem, All, Bool-cases, inl, inr, sym, ==_iff,
}
use mathlib.Core.Path.{subst}
use libproxc.Platform.{Platform}
use libproxc.Platform.Links.{tailq_insert_tail_lem, tailq_remove_lem}
use libproxc.Store.{State, Guard, Chan, ChanEndType, ret}
use libproxc.Scheduler.Queues.{scheduler_addready}
use libproxc.Scheduler.Queues.Fifo.{readied, addready_lem}
use libproxc.Chan.Copy.{chan_copydata}
use libproxc.Chan.Ops.{is_writer, first_end, chan_altenable, chan_altdisable, chan_altread}
use libproxc.Chan.Ops.Open.{IsOpen}
use libproxc.Chan.Ops.Parts.{with_chan, handed, first_end-cons, remove_end-cons, copydata_lem}
use libproxc.Chan.Keeps.{Ends, IsOpen-take}

put_back :
    (s : State) (c : ℕ) (chan other : Chan)
    → s.chans c ≡ some chan
    → with_chan (with_chan s c other) c chan ≡ s
put_back s c chan other at =
    ap (λ (f : ℕ → Option Chan). record s { chans = f })
      (fun_ext λ a. elim (Bool-cases (c == a)) [
        | inl here ↦
            let at' : s.chans a ≡ some chan =
              subst (λ z. s.chans z ≡ some chan) ((==_iff c a).0 here) at in
            rw here (sym at')
        | inr other ↦ rw other
      ])

module _ ⦃v : Platform⦄ (s : State) (c g : ℕ) {chan : Chan} {guard : Guard}
    (at : s.chans c ≡ some chan) (h : s.guards g ≡ some guard) where
  pub altenable_lem :
      first_end is_writer c s ≡ ret none s
      → elem g chan.alt_q ≡ false
      → chan_altenable c g s
        ≡ ret false (with_chan s c (record chan { alt_q = chan.alt_q ++ g ∷ [] }))
  unfolding chan_altenable
  altenable_lem none_writes out =
      rw (at, h, none_writes, at, tailq_insert_tail_lem chan.alt_q g, out)

  -- Where no writer waits, and the guard is not in the queue, chan_altenable puts the guard last into
  -- the queue of alternations, and reports that it is not ready; chan_altdisable then undoes that.
  pub altenable-altdisable :
      first_end is_writer c s ≡ ret none s
      → elem g chan.alt_q ≡ false
      → guard.chan ≡ some c
      → (s' : State) × (chan_altenable c g s ≡ ret false s')
        × (s'.chans c ≡ some (record chan { alt_q = chan.alt_q ++ g ∷ [] }))
        × (chan_altdisable c g s' ≡ ret tt s)
  unfolding chan_altdisable
  altenable-altdisable none_writes out on =
      let q = chan.alt_q ++ g ∷ [] in
      let joined : Chan = record chan { alt_q = q } in
      let linked : elem g q ≡ true = rw (elem-append g chan.alt_q (g ∷ [])) (ground arith) in
      (
        with_chan s c joined,
        altenable_lem none_writes out,
        rw (==_refl c),
        rw (==_refl c, h, on, ==_refl c, tailq_remove_lem q g, linked, erase-snoc g chan.alt_q out)
            (ap (λ (t : State). ret tt t) (put_back s c chan joined at)),
      )

  -- A writer `e` waits first: the guard is ready.
  pub altenable-ready :
      {e : ℕ} → first_end is_writer c s ≡ ret (some e) s → chan_altenable c g s ≡ ret true s
  unfolding chan_altenable
  altenable-ready found = rw (at, h, found)

  -- Its data is taken, and it is made ready.
  pub altread-handed :
      {e : ℕ} {q : List ℕ} (size : ℕ)
      → chan.end_q ≡ e ∷ q
      → (first : Ends s ChanEndType.writer e) → (size == chan.data_size) ≡ true
      → chan_altread c g size s
        ≡ ret tt (
            handed
              (with_chan s c (record chan { end_q = q }))
              e
              first.proc
              guard.data_ptr
              first.chan_end.data_ptr
              chan.data_size)
  unfolding chan_altread
  altread-handed {e} {q} size queue first sized =
      let src = first.chan_end.data_ptr in
      let t : State = record (with_chan s c (record chan { end_q = q })) {
        bytes = chan_copydata s.bytes guard.data_ptr src chan.data_size;
      } in
      let ready : scheduler_addready e t ≡ ret tt (readied t e first.proc) =
        addready_lem t first.proc_at first.out in
      let head : head? chan.end_q ≡ some e = ap (λ (l : List ℕ). head? l) queue in
      let is_w : is_writer first.chan_end.type ≡ true = rw first.typed in
      let removed = remove_end-cons s c at queue in
      rw (at, h, sized, head, first.at, is_w, removed, copydata_lem, first.owner) (rw ready)

  -- Where a writer waits first in a channel in order, chan_altenable reports the guard ready and
  -- changes nothing. chan_altread of the channel's size then takes that writer off the queue, copies
  -- its data to the guard's place and makes it ready, without a fault; the channel is in order
  -- afterwards.
  pub altenable-altread :
      {alt_of : ℕ → ℕ} {e : ℕ} {q : List ℕ}
      → IsOpen alt_of s c chan ChanEndType.writer
      → chan.end_q ≡ e ∷ q
      → (first : Ends s ChanEndType.writer e) × (s' : State) × (chan_altenable c g s ≡ ret true s)
        × (chan_altread c g chan.data_size s ≡ ret tt s')
        × (s'
            ≡ handed
                (with_chan s c (record chan { end_q = q }))
                e
                first.proc
                guard.data_ptr
                first.chan_end.data_ptr
                chan.data_size)
        × IsOpen alt_of s' c (record chan { end_q = q }) ChanEndType.writer
  altenable-altread {e} {q} open_w queue =
      let first : Ends s ChanEndType.writer e =
        (subst (All (Ends s ChanEndType.writer)) queue open_w.ends).0 in
      let size = chan.data_size in
      let src = first.chan_end.data_ptr in
      let found : first_end is_writer c s ≡ ret (some e) s =
        rw (first_end-cons s c is_writer at queue first.at, first.typed) in
      (
        first,
        handed (with_chan s c (record chan { end_q = q })) e first.proc guard.data_ptr src size,
        altenable-ready found,
        altread-handed size queue first (==_refl size),
        refl,
        IsOpen-take open_w first guard.data_ptr src size queue,
      )
