-- ===== src/Chan/Invariant.antt =====
-- chan_write and chan_read keep a channel in order, and do not fault.
use libproxc.Base.{
  ℕ, ◌≡◌, refl, true, false, List, [], ◌∷◌, ◌==◌, ==_iff, All, elem, elem-append, inl, inr,
  Bool-cases, arith, ◌++◌,
}
use mathlib.Core.Path.{subst}
use libproxc.Platform.{Platform}
use libproxc.Store.{State, Proc, ChanEndType, Chan, Run, ret, fault, yielded}
use libproxc.Chan.Ops.{chan_write, chan_read, write_alt}
use libproxc.Chan.Ops.Open.{IsOpen, Caller}
use libproxc.Chan.Ops.Parts.{write_alt-nil, write_alt-refused, write_alt-accepted}
use libproxc.Chan.Keeps.{Ends, Alters, IsOpen-take, IsOpen-wait, IsOpen-accept}
use libproxc.Chan.Write.{write-alter, write-reader, write-waits}
use libproxc.Chan.Read.{read-writer, read-waits}

-- What a call of `self` leaves of the channel `c`: it returns 1, or waits in the queue of ends, and
-- the channel is in order; it does not fault.
abbrev pub Kept : (ℕ → ℕ) → (c self : ℕ) → Run ℕ → Type 0
Kept alt_of c self (ret r s) =
    (r ≡ 1) × (chan : Chan) × (type : ChanEndType) × IsOpen alt_of s c chan type
Kept alt_of c self (fault e) = ⊥
Kept alt_of c self (yielded s k) =
    (chan : Chan) × (type : ChanEndType) × IsOpen alt_of s c chan type
    × (elem self chan.end_q ≡ true)

elem-snoc : (x : ℕ) (q : List ℕ) → elem x (q ++ x ∷ []) ≡ true
elem-snoc x q = rw (elem-append x q (x ∷ [])) (ground arith)

module _ ⦃v : Platform⦄ {alt_of : ℕ → ℕ} {s : State} {c : ℕ} {chan : Chan} {type : ChanEndType}
    {self : ℕ} {proc : Proc} (dat size : ℕ) (h : IsOpen alt_of s c chan type)
    (caller : Caller s self proc) where
  write_end-Kept :
      (size == chan.data_size) ≡ true
      → write_alt c dat size s ≡ ret false s
      → (q : List ℕ) → chan.end_q ≡ q
      → Kept alt_of c self (chan_write c dat size s)
  write_end-Kept sized none [] e =
      rw (write-waits s c dat size h.at sized none h caller (inl e))
        (_, _, IsOpen-wait h dat caller (inl refl) (inl e), elem-snoc self chan.end_q)
  write_end-Kept sized none (x ∷ q) e = elim h.side [
    | inl w ↦
        rw (write-waits s c dat size h.at sized none h caller (inr w))
          (_, _, IsOpen-wait h dat caller (inl refl) (inr w), elem-snoc self chan.end_q)
    | inr r ↦
        let first : Ends s type x = (subst (All (Ends s type)) e h.ends).0 in
        let reader : Ends s ChanEndType.reader x = subst (λ t. Ends s t x) r first in
        let open_r : IsOpen alt_of s c chan ChanEndType.reader =
          subst (λ t. IsOpen alt_of s c chan t) r h in
        rw (write-reader s c dat size h.at sized none e reader)
          (refl, _, _, IsOpen-take open_r reader reader.chan_end.data_ptr dat size e)
  ]

  write-Kept :
      (size == chan.data_size) ≡ true
      → (q : List ℕ) → chan.alt_q ≡ q
      → Kept alt_of c self (chan_write c dat size s)
  write-Kept sized [] e = write_end-Kept sized (write_alt-nil s c dat size h.at e) chan.end_q refl
  write-Kept sized (g ∷ q) e =
      let first : Alters alt_of s g = (subst (All (Alters alt_of s)) e h.alters).0 in
      elim (Bool-cases first.alt.is_accepted) [
        | inl acc ↦
            write_end-Kept sized (write_alt-refused s c dat size h.at e first acc) chan.end_q refl
        | inr free ↦
            rw
              (write-alter s c dat size h.at sized
                (write_alt-accepted s c dat size h.at e first free))
              (refl, _, _, IsOpen-accept h first first.guard.ch_end.data_ptr dat size free)
      ]

  -- A write of the channel's size on a channel in order, by the running PROC, does not fault: it
  -- returns 1, or the caller waits in the queue of ends; the channel is in order afterwards.
  pub chan_write-Kept : size ≡ chan.data_size → Kept alt_of c self (chan_write c dat size s)
  chan_write-Kept sized = write-Kept ((==_iff size chan.data_size).1 sized) chan.alt_q refl

  read-Kept :
      (size == chan.data_size) ≡ true
      → (q : List ℕ) → chan.end_q ≡ q
      → Kept alt_of c self (chan_read c dat size s)
  read-Kept sized [] e =
      rw (read-waits s c dat size h.at sized h caller (inl e))
        (_, _, IsOpen-wait h dat caller (inr refl) (inl e), elem-snoc self chan.end_q)
  read-Kept sized (x ∷ q) e = elim h.side [
    | inr r ↦
        rw (read-waits s c dat size h.at sized h caller (inr r))
          (_, _, IsOpen-wait h dat caller (inr refl) (inr r), elem-snoc self chan.end_q)
    | inl w ↦
        let first : Ends s type x = (subst (All (Ends s type)) e h.ends).0 in
        let writer : Ends s ChanEndType.writer x = subst (λ t. Ends s t x) w first in
        let open_w : IsOpen alt_of s c chan ChanEndType.writer =
          subst (λ t. IsOpen alt_of s c chan t) w h in
        rw (read-writer s c dat size h.at sized e writer)
          (refl, _, _, IsOpen-take open_w writer dat writer.chan_end.data_ptr size e)
  ]

  -- A read of the channel's size on a channel in order, by the running PROC, does not fault: it
  -- returns 1, or the caller waits in the queue of ends; the channel is in order afterwards.
  pub chan_read-Kept : size ≡ chan.data_size → Kept alt_of c self (chan_read c dat size s)
  chan_read-Kept sized = read-Kept ((==_iff size chan.data_size).1 sized) chan.end_q refl
