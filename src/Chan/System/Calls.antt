-- ===== src/Chan/System/Calls.antt =====
-- A call of chan_write or chan_read keeps all channels in order, and does not fault.
use libproxc.Base.{ℕ, ◌≡◌, refl, false, some, List, [], ◌∷◌, ==_refl, All, Bool-cases, inl, inr}
use mathlib.Core.Path.{subst}
use libproxc.Platform.{Platform}
use libproxc.Store.{State, Proc, ChanEndType, Chan, Run, ret, fault, yielded}
use libproxc.Chan.Ops.{chan_write, chan_read, write_alt}
use libproxc.Chan.Ops.Open.{IsOpen, Caller}
use libproxc.Chan.Ops.Parts.{wait_rest, write_alt-nil, write_alt-refused, write_alt-accepted}
use libproxc.Chan.Keeps.{Ends, Alters}
use libproxc.Chan.Write.{write-alter, write-reader, write-waits}
use libproxc.Chan.Read.{read-writer, read-waits}
use libproxc.Chan.System.{end_chan, InOrder}
use libproxc.Chan.System.Moves.{InOrder-take, InOrder-wait, InOrder-accept}

-- What a call of `self` leaves: it returns 1, or it waits, and when it is resumed it takes its ChanEnd
-- away and returns 1. All channels are in order; it does not fault.
abbrev pub Keeps : (ℕ → ℕ) → (self : ℕ) → Run ℕ → Type 0
Keeps alt_of self (ret r s) = (r ≡ 1) × InOrder alt_of s
Keeps alt_of self (fault e) = ⊥
Keeps alt_of self (yielded s k) = InOrder alt_of s × ((t : State) → k t ≡ wait_rest self t)

module _ ⦃v : Platform⦄ {alt_of : ℕ → ℕ} {s : State} (h : InOrder alt_of s) (c dat : ℕ)
    {chan : Chan} {self : ℕ} {proc : Proc} (at : s.chans c ≡ some chan)
    (caller : Caller s self proc) where
  write_end-Keeps :
      (type : ChanEndType)
      → IsOpen alt_of s c chan type
      → All (λ x. end_chan (s.ends x) ≡ some c) chan.end_q
      → write_alt c dat chan.data_size s ≡ ret false s
      → (q : List ℕ) → chan.end_q ≡ q
      → Keeps alt_of self (chan_write c dat chan.data_size s)
  write_end-Keeps type o on none [] e =
      rw (write-waits s c dat chan.data_size at (==_refl chan.data_size) none o caller (inl e))
        (InOrder-wait h c at o on dat caller (inl refl) (inl e), λ t. refl)
  write_end-Keeps type o on none (x ∷ q) e = elim o.side [
    | inl w ↦
        rw (write-waits s c dat chan.data_size at (==_refl chan.data_size) none o caller (inr w))
          (InOrder-wait h c at o on dat caller (inl refl) (inr w), λ t. refl)
    | inr r ↦
        let first : Ends s type x = (subst (All (Ends s type)) e o.ends).0 in
        let reader : Ends s ChanEndType.reader x = subst (λ t. Ends s t x) r first in
        let open_r : IsOpen alt_of s c chan ChanEndType.reader =
          subst (λ t. IsOpen alt_of s c chan t) r o in
        rw (write-reader s c dat chan.data_size at (==_refl chan.data_size) none e reader)
          (refl, InOrder-take h c at open_r on reader reader.chan_end.data_ptr dat chan.data_size e)
  ]

  write_alter-Keeps :
      (q : List ℕ) → chan.alt_q ≡ q → Keeps alt_of self (chan_write c dat chan.data_size s)
  write_alter-Keeps [] e =
      let (type, o, on) = h.chans c chan at in
      write_end-Keeps type o on (write_alt-nil s c dat chan.data_size at e) chan.end_q refl
  write_alter-Keeps (g ∷ q) e =
      let (type, o, on) = h.chans c chan at in
      let first : Alters alt_of s g = (subst (All (Alters alt_of s)) e o.alters).0 in
      elim (Bool-cases first.alt.is_accepted) [
        | inl acc ↦
            write_end-Keeps type o on (write_alt-refused s c dat chan.data_size at e first acc)
              chan.end_q refl
        | inr free ↦
            rw
              (write-alter s c dat chan.data_size at (==_refl chan.data_size)
                (write_alt-accepted s c dat chan.data_size at e first free))
              (refl, InOrder-accept h first first.guard.ch_end.data_ptr dat chan.data_size free)
      ]

  pub chan_write-Keeps : Keeps alt_of self (chan_write c dat chan.data_size s)
  chan_write-Keeps = write_alter-Keeps chan.alt_q refl

  read_end-Keeps :
      (type : ChanEndType)
      → IsOpen alt_of s c chan type
      → All (λ x. end_chan (s.ends x) ≡ some c) chan.end_q
      → (q : List ℕ) → chan.end_q ≡ q
      → Keeps alt_of self (chan_read c dat chan.data_size s)
  read_end-Keeps type o on [] e =
      rw (read-waits s c dat chan.data_size at (==_refl chan.data_size) o caller (inl e))
        (InOrder-wait h c at o on dat caller (inr refl) (inl e), λ t. refl)
  read_end-Keeps type o on (x ∷ q) e = elim o.side [
    | inr r ↦
        rw (read-waits s c dat chan.data_size at (==_refl chan.data_size) o caller (inr r))
          (InOrder-wait h c at o on dat caller (inr refl) (inr r), λ t. refl)
    | inl w ↦
        let first : Ends s type x = (subst (All (Ends s type)) e o.ends).0 in
        let writer : Ends s ChanEndType.writer x = subst (λ t. Ends s t x) w first in
        let open_w : IsOpen alt_of s c chan ChanEndType.writer =
          subst (λ t. IsOpen alt_of s c chan t) w o in
        rw (read-writer s c dat chan.data_size at (==_refl chan.data_size) e writer)
          (refl, InOrder-take h c at open_w on writer dat writer.chan_end.data_ptr chan.data_size e)
  ]

  pub chan_read-Keeps : Keeps alt_of self (chan_read c dat chan.data_size s)
  chan_read-Keeps =
      let (type, o, on) = h.chans c chan at in read_end-Keeps type o on chan.end_q refl
