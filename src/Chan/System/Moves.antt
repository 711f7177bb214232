-- ===== src/Chan/System/Moves.antt =====
-- The changes that chan_write and chan_read make keep all channels in order.
use libproxc.Base.{
  ℕ, ◌≡◌, ◌⊎◌, sym, ap, ◌∙◌, refl, true, false, none, some, List, [], ◌∷◌, ◌++◌, ◌==◌, ==_iff,
  ==_refl, All, All-mono, All-append, All-both, Option, Bool-cases, inl, inr, update, distinct-snoc,
}
use mathlib.Core.Path.{subst}
use libproxc.Platform.{Platform}
use libproxc.Store.{State, Proc, ChanEnd, ChanEndType, Chan}
use libproxc.Chan.Ops.Open.{IsOpen, Caller}
use libproxc.Chan.Ops.Open.Frames.{
  EndAt-frame, EndAt-ne, AlterAt-frame, AlterAt-accepted, elem-snoc_ne,
}
use libproxc.Chan.Ops.Parts.{with_chan, handed, accepted, waiting}
use libproxc.Chan.Keeps.{Ends, Alters, IsOpen-take, IsOpen-wait}
use libproxc.Chan.System.{
  end_chan, ChanInOrder, InOrder, ready-frame, ready-snoc, ChanInOrder-frame,
}

some_inj : {A : Type 0} (x : A) {y : A} → some x ≡ some y → x ≡ y
some_inj x e = ap (λ o. elim o [ none ↦ x | some z ↦ z ]) e

-- Ends of two channels are two ends.
ends_ne :
    (ends : ℕ → Option ChanEnd) {c d : ℕ} (e x : ℕ)
    → end_chan (ends e) ≡ some c
    → end_chan (ends x) ≡ some d
    → (c == d) ≡ false
    → (e == x) ≡ false
ends_ne ends {c} {d} e x on_c on_d ne = elim (Bool-cases (e == x)) [
  | inl same ↦
      let eq : e ≡ x = (==_iff e x).0 same in
      let both : some c ≡ some d = sym on_c ∙ ap (λ (y : ℕ). end_chan (ends y)) eq ∙ on_d in
      let one : (c == d) ≡ true = (==_iff c d).1 (some_inj c both) in absurd (cc (one, ne))
  | inr other ↦ other
]

-- After a change of the channel `c`, the channels are `c` and the others.
pub by_chan :
    {alt_of : ℕ → ℕ} (s s' : State) (c : ℕ) (new : Chan)
    → ChanInOrder alt_of s' c new
    → ((d : ℕ) (there : Chan)
        → (c == d) ≡ false
        → s.chans d ≡ some there
        → ChanInOrder alt_of s' d there)
    → (d : ℕ) (there : Chan) → update s.chans c (some new) d ≡ some there
    → ChanInOrder alt_of s' d there
by_chan {alt_of} s s' c new here others d there at = elim (Bool-cases (c == d)) [
  | inl same ↦
      let eq : c ≡ d = (==_iff c d).0 same in
      let u : update s.chans c (some new) d ≡ some new = rw same in
      subst (ChanInOrder alt_of s' d) (some_inj new (sym u ∙ at))
        (subst (λ z. ChanInOrder alt_of s' z new) eq here)
  | inr other ↦
      let u : update s.chans c (some new) d ≡ s.chans d = rw other in
      others d there other (sym u ∙ at)
]

module _ ⦃v : Platform⦄ {alt_of : ℕ → ℕ} {s : State} (h : InOrder alt_of s) (c : ℕ) {chan : Chan}
    {type : ChanEndType} (at : s.chans c ≡ some chan) (open_c : IsOpen alt_of s c chan type)
    (on : All (λ x. end_chan (s.ends x) ≡ some c) chan.end_q) where
  -- The first end is taken off, handed data, and made ready.
  pub InOrder-take :
      {e : ℕ} {q : List ℕ} (first : Ends s type e) (dst src size : ℕ)
      → chan.end_q ≡ e ∷ q
      → InOrder alt_of
          (handed (with_chan s c (record chan { end_q = q })) e first.proc dst src size)
  InOrder-take {e} {q} first dst src size queue =
      let s' : State =
        handed (with_chan s c (record chan { end_q = q })) e first.proc dst src size in
      let on' = subst (All (λ x. end_chan (s.ends x) ≡ some c)) queue on in
      record {
        once = distinct-snoc s.sched.ready_q e h.once first.out;
        ready = ready-snoc s.procs s.sched.ready_q e _ first.out refl h.ready;
        chans =
            by_chan s s' c (record chan { end_q = q })
              (type, IsOpen-take open_c first dst src size queue, on'.1)
              (λ d there other at_d.
                ChanInOrder-frame s' d (rw other at_d)
                  (λ t x on_d w.
                    let ne : (e == x) ≡ false = ends_ne s.ends e x on'.0 on_d other in
                    (EndAt-frame e _ ne refl (elem-snoc_ne e _ x ne) w, on_d))
                  (λ x w.
                    AlterAt-frame e _ (λ y n out. elem-snoc_ne e _ y n out) first.proc_at
                      (λ f. cc (first.waits)) w)
                  (h.chans d there at_d));
      }

  -- The caller joins the queue, which is empty or holds ends of its kind.
  pub InOrder-wait :
      {self : ℕ} {proc : Proc} {new : ChanEndType} (dat : ℕ)
      → Caller s self proc
      → (new ≡ ChanEndType.writer) ⊎ (new ≡ ChanEndType.reader)
      → (chan.end_q ≡ []) ⊎ (type ≡ new)
      → InOrder alt_of (waiting s new c dat self chan proc)
  InOrder-wait {self} {proc} {new} dat caller known side =
      let s' : State = waiting s new c dat self chan proc in
      let apart = λ (t : ChanEndType) (x : ℕ) (w : Ends s t x).
        EndAt-ne w caller.at (λ f. cc (caller.runs)) in
      record {
        once = h.once;
        ready = ready-frame s.procs s.sched.ready_q self _ caller.out h.ready;
        chans =
            by_chan s s' c (record chan { end_q = chan.end_q ++ self ∷ [] })
              (
                new,
                IsOpen-wait open_c dat caller known side,
                All-append _ chan.end_q (self ∷ [])
                    (All-mono chan.end_q (λ x m w. rw (apart type x w.0) w.1)
                      (All-both _ _ chan.end_q open_c.ends on))
                    (rw (==_refl self), tt),
              )
              (λ d there other at_d.
                ChanInOrder-frame s' d (rw other at_d)
                  (λ t x on_d w.
                    let ne = apart t x w in (EndAt-frame self _ ne (rw ne) (λ o. o) w, rw ne on_d))
                  (λ x w. AlterAt-frame self _ (λ y n out. out) caller.at (λ f. cc (caller.runs)) w)
                  (h.chans d there at_d));
      }

-- An alternation accepts a guard, is handed data, and is made ready.
pub InOrder-accept :
    ⦃v : Platform⦄ {alt_of : ℕ → ℕ} {s : State}
    → InOrder alt_of s
    → {g : ℕ} (first : Alters alt_of s g) (dst src size : ℕ) → first.alt.is_accepted ≡ false
    → InOrder alt_of (handed (accepted s first.a g first.alt) first.p first.proc dst src size)
InOrder-accept {s} h {g} first dst src size free =
    let s' : State = handed (accepted s first.a g first.alt) first.p first.proc dst src size in
    record {
      once = distinct-snoc s.sched.ready_q first.p h.once (first.out free);
      ready = ready-snoc s.procs s.sched.ready_q first.p _ (first.out free) refl h.ready;
      chans = λ c chan at.
          ChanInOrder-frame s' c at
            (λ t x on w.
              let ne : (first.p == x) ≡ false =
                EndAt-ne w first.proc_at (λ f. cc (first.waits free)) in
              (EndAt-frame first.p _ ne refl (elem-snoc_ne first.p _ x ne) w, on))
            (λ x w. AlterAt-accepted _ _ first refl w) (h.chans c chan at);
    }
