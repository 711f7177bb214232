-- ===== src/Chan/Keeps.antt =====
-- The three ways in which a channel's queues change keep the channel in order.
use libproxc.Base.{
  ℕ, ◌≡◌, refl, sym, true, false, List, [], ◌∷◌, ◌++◌, ◌==◌, ==_iff, arith, elem, ==_refl, distinct,
  All, All-mono, All-append, distinct-snoc, ◌⊎◌, inl, inr, ◌≢◌, Bool-cases,
}
use mathlib.Core.Path.{subst}
use libproxc.Platform.{Platform}
use libproxc.Store.{State, Proc, ProcState, ChanEndType, Chan}
use libproxc.Chan.Ops.Open.{EndAt, AlterAt, IsOpen, Caller}
use libproxc.Chan.Ops.Open.Frames.{
  EndAt-frame, AlterAt-frame, AlterAt-accepted, EndAt-ne, not-elem-ends, elem-snoc_ne,
}
use libproxc.Chan.Ops.Parts.{with_chan, handed, accepted, waiting, waiting_end}

abbrev pub Ends : State → ChanEndType → ℕ → Type 0
Ends s = EndAt s.ends s.procs s.sched.ready_q

abbrev pub Alters : (ℕ → ℕ) → State → ℕ → Type 0
Alters alt_of s = AlterAt alt_of s.guards s.alts s.procs s.sched.ready_q

module _ ⦃v : Platform⦄ {s : State} {c : ℕ} {chan : Chan} {type : ChanEndType} {alt_of : ℕ → ℕ}
    (h : IsOpen alt_of s c chan type) where
  -- The first end is taken off, handed data, and made ready.
  pub IsOpen-take :
      {e : ℕ} {q : List ℕ} (first : Ends s type e) (dst src size : ℕ)
      → chan.end_q ≡ e ∷ q
      → IsOpen alt_of
          (handed (with_chan s c (record chan { end_q = q })) e first.proc dst src size)
          c
          (record chan { end_q = q })
          type
  IsOpen-take {e} {q} first dst src size at =
      let once : distinct (e ∷ q) ≡ true = subst (λ l. distinct l ≡ true) at h.once in
      let ends : All (Ends s type) (e ∷ q) = subst (All (Ends s type)) at h.ends in
      record {
        at = rw (==_refl c);
        side = h.side;
        ends =
            All-mono q
              (λ x m w.
                EndAt-frame e _ (differs x m once) refl (elem-snoc_ne e _ x (differs x m once)) w)
              ends.1;
        once = ground (arith, once);
        alters =
            All-mono chan.alt_q
              (λ x m w.
                AlterAt-frame e _ (λ y ne out. elem-snoc_ne e _ y ne out) first.proc_at
                  (λ f. cc (first.waits)) w)
              h.alters;
      }
    where
      differs : (x : ℕ) → elem x q ≡ true → distinct (e ∷ q) ≡ true → (e == x) ≡ false
      differs x m once = elim (Bool-cases (e == x)) [
        | inl same ↦
            let eq : e ≡ x = (==_iff e x).0 same in
            let here : elem e q ≡ true = subst (λ y. elem y q ≡ true) (sym eq) m in
            ground (arith, here)
        | inr other ↦ other
      ]

  -- The caller joins the queue, which is empty or holds ends of its kind.
  pub IsOpen-wait :
      {self : ℕ} {proc : Proc} {new : ChanEndType} (dat : ℕ)
      → Caller s self proc
      → (new ≡ ChanEndType.writer) ⊎ (new ≡ ChanEndType.reader)
      → (chan.end_q ≡ []) ⊎ (type ≡ new)
      → IsOpen alt_of
          (waiting s new c dat self chan proc)
          c
          (record chan { end_q = chan.end_q ++ self ∷ [] })
          new
  IsOpen-wait {self} {proc} {new} dat caller known side = record {
    at = rw (==_refl c);
    side = known;
    ends = All-append _ chan.end_q (self ∷ []) (old chan.end_q h.ends side) (mine, tt);
    once = distinct-snoc chan.end_q self h.once fresh;
    alters =
        All-mono chan.alt_q
          (λ x m w. AlterAt-frame self _ (λ y ne out. out) caller.at (λ f. cc (caller.runs)) w)
          h.alters;
  }
    where
      fresh : elem self chan.end_q ≡ false
      fresh = not-elem-ends s type chan.end_q caller.at (λ f. cc (caller.runs)) h.ends

      mine : Ends (waiting s new c dat self chan proc) new self
      mine = record {
        chan_end = waiting_end new c dat self;
        at = rw (==_refl self);
        typed = refl;
        owner = refl;
        proc = record proc { state = ProcState.chanwait };
        proc_at = rw (==_refl self);
        waits = refl;
        out = caller.out;
      }

      kept : (x : ℕ) → Ends s type x → type ≡ new → Ends (waiting s new c dat self chan proc) new x
      kept x w eq =
          let ne : (self == x) ≡ false = EndAt-ne w caller.at (λ f. cc (caller.runs)) in
          subst (λ t. Ends (waiting s new c dat self chan proc) t x) eq
            (EndAt-frame self _ ne (rw ne) (λ o. o) w)

      old :
          (q : List ℕ)
          → All (Ends s type) q
          → (q ≡ []) ⊎ (type ≡ new)
          → All (Ends (waiting s new c dat self chan proc) new) q
      old [] w e = tt
      old (x ∷ q) w (inl e) = absurd (cc)
      old (x ∷ q) w (inr e) = All-mono (x ∷ q) (λ y m z. kept y z e) w

  -- An alternation accepts a guard, is handed data, and is made ready.
  pub IsOpen-accept :
      {g : ℕ} (first : Alters alt_of s g) (dst src size : ℕ)
      → first.alt.is_accepted ≡ false
      → IsOpen alt_of
          (handed (accepted s first.a g first.alt) first.p first.proc dst src size)
          c
          chan
          type
  IsOpen-accept {g} first dst src size free = record {
    at = h.at;
    side = h.side;
    ends =
        All-mono chan.end_q
          (λ x m w.
            let ne = EndAt-ne w first.proc_at busy in
            EndAt-frame first.p _ ne refl (elem-snoc_ne first.p _ x ne) w)
          h.ends;
    once = h.once;
    alters = All-mono chan.alt_q (λ x m w. AlterAt-accepted _ _ first refl w) h.alters;
  }
    where
      busy : first.proc.state ≢ ProcState.chanwait
      busy f = cc (first.waits free)
