-- ===== src/Alt/Offers.antt =====
-- The loop of alt_select that enables guards on channels, some of which a writer waits at.
use libproxc.Base.{
  ℕ, ◌≡◌, refl, ap, ◌∙◌, Bool, true, false, ◌&&◌, ◌||◌, Option, some, List, [], ◌∷◌, ◌++◌, arith,
  ◌==◌, ==_iff, elem, elem-append, ne_of_elem, if◌then◌else◌, update, All, All-mono, Bool-cases,
  inl, inr, ◌⊎◌,
}
use libproxc.Platform.{Platform}
use libproxc.Store.{State, GuardType, ChanEndType, guard_chan, Guard, Chan, ret}
use libproxc.Chan.Keeps.{Ends}
use libproxc.Chan.Ops.{is_writer, first_end}
use libproxc.Chan.Ops.Parts.{first_end-cons}
use libproxc.Chan.Guarded.{altenable-ready}
use libproxc.Alt.Select.{enable_as, alt_enable}
use libproxc.Alt.Queues.{joins, marks, Idle, Idle-next, chan_next}

-- A guard on a channel at which a writer waits first, by the predicate `Writes` on ends.
pub record Offered (chan_of : ℕ → ℕ) (Writes : ℕ → Type 0) (chans : ℕ → Option Chan)
    (guards : ℕ → Option Guard) (g : ℕ) : Type 0 where
  pub guard : Guard
  pub at : guards g ≡ some guard
  pub typed : guard.type ≡ guard_chan
  pub on : guard.chan ≡ some (chan_of g)
  pub outside : guard.in_chan ≡ false
  pub chan : Chan
  pub chan_at : chans (chan_of g) ≡ some chan
  pub sized : (guard.data_size == chan.data_size) ≡ true
  pub e : ℕ
  pub q : List ℕ
  pub queue : chan.end_q ≡ e ∷ q
  pub writes : Writes e

-- `offers` tells at which guards a writer waits; at the others no PROC waits.
abbrev pub Stands :
    (chan_of : ℕ → ℕ) (offers : ℕ → Bool)
    → (ℕ → Type 0)
    → (ℕ → Option Chan)
    → (ℕ → Option Guard)
    → ℕ
    → Type 0
Stands chan_of offers Writes f gr g =
    ((offers g ≡ true) × Offered chan_of Writes f gr g) ⊎ ((offers g ≡ false) × Idle chan_of f gr g)

-- The guards at which no writer waits.
abbrev pub idle_of : (offers : ℕ → Bool) → List ℕ → List ℕ
idle_of offers [] = []
idle_of offers (g ∷ gs) = let rest = idle_of offers gs in if offers g then rest else g ∷ rest

-- The ready guards that have been noted: those of `old`, and those of `gs` that have a writer.
pub record Noted (offers : ℕ → Bool) (old gs now : List ℕ) : Type 0 where
  pub members : (x : ℕ) → elem x now ≡ (elem x old || (elem x gs && offers x))

pub Noted-ready :
    (offers : ℕ → Bool) (old gs now : List ℕ) (g : ℕ)
    → offers g ≡ true
    → Noted offers (old ++ g ∷ []) gs now
    → Noted offers old (g ∷ gs) now
Noted-ready offers old gs now g o n = record {
  members = λ x.
      n.members x
      ∙ ap (λ b. b || (elem x gs && offers x)) (elem-append x old (g ∷ []))
      ∙ elim (Bool-cases (x == g)) [
        | inl here ↦
            let is : offers x ≡ true = ap offers ((==_iff x g).0 here) ∙ o in
            ground (arith, here, is)
        | inr other ↦ ground (arith, other)
      ];
}

pub Noted-idle :
    (offers : ℕ → Bool) (old gs now : List ℕ) (g : ℕ)
    → offers g ≡ false
    → Noted offers old gs now
    → Noted offers old (g ∷ gs) now
Noted-idle offers old gs now g o n = record {
  members = λ x. n.members x ∙ elim (Bool-cases (x == g)) [
    | inl here ↦
        let is : offers x ≡ false = ap offers ((==_iff x g).0 here) ∙ o in ground (arith, here, is)
    | inr other ↦ ground (arith, other)
  ];
}

module _ ⦃v : Platform⦄ (chan_of : ℕ → ℕ) where
  offered_as-chan :
      (s : State) (g : ℕ) (type : GuardType)
      → (h : Offered chan_of (Ends s ChanEndType.writer) s.chans s.guards g) → type ≡ guard_chan
      → enable_as type h.guard g s ≡ ret true s
  unfolding enable_as
  offered_as-chan s g type h e =
      let found : first_end is_writer (chan_of g) s ≡ ret (some h.e) s =
        rw (first_end-cons s (chan_of g) is_writer h.chan_at h.queue h.writes.at, h.writes.typed) in
      rw (e, h.on, altenable-ready s (chan_of g) g h.chan_at h.at found)

  pub offered_lem :
      (s : State) (g : ℕ)
      → Offered chan_of (Ends s ChanEndType.writer) s.chans s.guards g
      → alt_enable g s ≡ ret true s
  unfolding alt_enable
  offered_lem s g h =
      let loads : alt_enable g s ≡ enable_as h.guard.type h.guard g s = rw h.at in
      loads ∙ offered_as-chan s g h.guard.type h h.typed

  -- A guard that is put into a queue leaves the writers.
  Offered-next :
      (Writes : ℕ → Type 0) (f : ℕ → Option Chan) (gr : ℕ → Option Guard) (g g' : ℕ)
      → (g == g') ≡ false
      → Offered chan_of Writes f gr g'
      → Offered chan_of Writes
          (update f (chan_of g) (joins g (f (chan_of g))))
          (update gr g (marks (gr g)))
          g'
  Offered-next Writes f gr g g' ne h =
      let u : Chan → Chan = λ chan. record chan { alt_q = chan.alt_q ++ g ∷ [] } in
      let (chan', at, how) =
        chan_next chan_of (joins g) u (λ chan. refl) f (chan_of g) (chan_of g') h.chan_at in
      record {
        guard = h.guard;
        at = rw ne h.at;
        typed = h.typed;
        on = h.on;
        outside = h.outside;
        chan = chan';
        chan_at = at;
        sized = elim how [ inl e ↦ rw e h.sized | inr e ↦ rw e h.sized ];
        e = h.e;
        q = h.q;
        queue = elim how [ inl e ↦ rw e h.queue | inr e ↦ rw e h.queue ];
        writes = h.writes;
      }

  pub Stands-rest :
      (offers : ℕ → Bool) (Writes : ℕ → Type 0) (f : ℕ → Option Chan) (gr : ℕ → Option Guard)
      (g : ℕ) (gs : List ℕ)
      → elem g gs ≡ false
      → All (Stands chan_of offers Writes f gr) gs
      → All
          (Stands chan_of offers Writes
            (update f (chan_of g) (joins g (f (chan_of g))))
            (update gr g (marks (gr g))))
          gs
  Stands-rest offers Writes f gr g gs out = All-mono gs λ x m h.
      let ne = ne_of_elem g x gs out m in
      elim h [
        | inl (o, w) ↦ inl (o, Offered-next Writes f gr g x ne w)
        | inr (o, w) ↦ inr (o, Idle-next chan_of f gr g x ne w)
      ]
