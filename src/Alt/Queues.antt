-- ===== src/Alt/Queues.antt =====
-- The loops of alt_select over guards on channels: enable_guards puts every guard into the queue of
-- its channel, disable_guards takes them out again.
use libproxc.Base.{
  ℕ, ◌≡◌, refl, ap, ◌∙◌, true, false, Option, none, some, List, [], ◌∷◌, ◌++◌, arith, ◌==◌, ==_iff,
  elem, erase, elem-append, ne_of_elem, distinct, distinct-uncons, update, All, All-mono,
  Bool-cases, inl, inr, ◌⊎◌,
}
use libproxc.Platform.{Platform}
use libproxc.Store.{State, GuardType, guard_chan, Guard, Chan, ret}
use libproxc.Chan.Ops.{is_writer, first_end}
use libproxc.Chan.Guarded.{altenable_lem}
use libproxc.Alt.Select.{enable_as, alt_enable, enable_guards}

abbrev pub joins : (g : ℕ) → Option Chan → Option Chan
joins g none = none
joins g (some chan) = some (record chan { alt_q = chan.alt_q ++ g ∷ [] })

abbrev pub parts : (g : ℕ) → Option Chan → Option Chan
parts g none = none
parts g (some chan) = some (record chan { alt_q = erase g chan.alt_q })

abbrev pub marks : Option Guard → Option Guard
marks none = none
marks (some guard) = some (record guard { in_chan = true })

-- The channels with the guards of a list in their queues; `chan_of` has the channel of a guard.
abbrev pub joined : (chan_of : ℕ → ℕ) → List ℕ → (ℕ → Option Chan) → ℕ → Option Chan
joined chan_of [] f = f
joined chan_of (g ∷ gs) f = joined chan_of gs (update f (chan_of g) (joins g (f (chan_of g))))

abbrev pub parted : (chan_of : ℕ → ℕ) → List ℕ → (ℕ → Option Chan) → ℕ → Option Chan
parted chan_of [] f = f
parted chan_of (g ∷ gs) f = parted chan_of gs (update f (chan_of g) (parts g (f (chan_of g))))

-- The guards, those of the list marked as being in a channel's queue.
abbrev pub marked : List ℕ → (ℕ → Option Guard) → ℕ → Option Guard
marked [] f = f
marked (g ∷ gs) f = marked gs (update f g (marks (f g)))

pub marked-other :
    (gs : List ℕ) (f : ℕ → Option Guard) (g : ℕ) → elem g gs ≡ false → marked gs f g ≡ f g
marked-other [] f g out = refl
marked-other (x ∷ gs) f g out =
    let ne : (x == g) ≡ false = ground (arith, out) in
    marked-other gs (update f x (marks (f x))) g (ground (arith, out)) ∙ rw ne

-- A guard on a channel at which no PROC waits; it is not in the channel's queue.
pub record Idle (chan_of : ℕ → ℕ) (chans : ℕ → Option Chan) (guards : ℕ → Option Guard) (g : ℕ)
    : Type 0 where
  pub guard : Guard
  pub at : guards g ≡ some guard
  pub typed : guard.type ≡ guard_chan
  pub on : guard.chan ≡ some (chan_of g)
  pub chan : Chan
  pub chan_at : chans (chan_of g) ≡ some chan
  pub empty : chan.end_q ≡ []
  pub out : elem g chan.alt_q ≡ false

-- A guard in the queue of its channel.
pub record Linked (chan_of : ℕ → ℕ) (chans : ℕ → Option Chan) (guards : ℕ → Option Guard) (g : ℕ)
    : Type 0 where
  pub guard : Guard
  pub at : guards g ≡ some guard
  pub typed : guard.type ≡ guard_chan
  pub on : guard.chan ≡ some (chan_of g)
  pub marked : guard.in_chan ≡ true
  pub chan : Chan
  pub chan_at : chans (chan_of g) ≡ some chan
  pub linked : elem g chan.alt_q ≡ true

no_writer :
    (s : State) (c : ℕ) {chan : Chan}
    → s.chans c ≡ some chan
    → chan.end_q ≡ []
    → first_end is_writer c s ≡ ret none s
unfolding first_end
no_writer s c at empty = rw (at, empty)

module _ ⦃v : Platform⦄ (chan_of : ℕ → ℕ) where
  -- The store after the guard has been put into the queue.
  abbrev pub enabled : State → ℕ → State
  enabled s g = record s {
    chans = update s.chans (chan_of g) (joins g (s.chans (chan_of g)));
    guards = update s.guards g (marks (s.guards g));
  }

  enable_as-chan :
      (s : State) (g : ℕ) (type : GuardType)
      → (h : Idle chan_of s.chans s.guards g) → type ≡ guard_chan
      → enable_as type h.guard g s ≡ ret false (enabled s g)
  unfolding enable_as
  enable_as-chan s g type h e = rw (
    e,
    h.on,
    altenable_lem s (chan_of g) g h.chan_at h.at (no_writer s (chan_of g) h.chan_at h.empty) h.out,
    h.at,
    h.chan_at,
  )

  pub enable_lem :
      (s : State) (g : ℕ)
      → Idle chan_of s.chans s.guards g
      → alt_enable g s ≡ ret false (enabled s g)
  unfolding alt_enable
  enable_lem s g h =
      let loads : alt_enable g s ≡ enable_as h.guard.type h.guard g s = rw h.at in
      loads ∙ enable_as-chan s g h.guard.type h h.typed

  -- Another channel than the one that changes is as it was, and the one itself is changed.
  pub chan_next :
      (t : Option Chan → Option Chan) (u : Chan → Chan)
      → ((chan : Chan) → t (some chan) ≡ some (u chan))
      → (f : ℕ → Option Chan) (c c' : ℕ) {chan : Chan} → f c' ≡ some chan
      → (chan' : Chan) × (update f c (t (f c)) c' ≡ some chan')
        × ((chan' ≡ chan) ⊎ (chan' ≡ u chan))
  chan_next t u spec f c c' {chan} at = elim (Bool-cases (c == c')) [
    | inl here ↦
        let same : c ≡ c' = (==_iff c c').0 here in
        (u chan, rw here (ap (λ x. t (f x)) same ∙ ap t at ∙ spec chan), inr refl)
    | inr other ↦ (chan, rw other at, inl refl)
  ]

  pub Idle-next :
      (f : ℕ → Option Chan) (gr : ℕ → Option Guard) (g g' : ℕ)
      → (g == g') ≡ false
      → Idle chan_of f gr g'
      → Idle chan_of
          (update f (chan_of g) (joins g (f (chan_of g))))
          (update gr g (marks (gr g)))
          g'
  Idle-next f gr g g' ne h =
      let u : Chan → Chan = λ chan. record chan { alt_q = chan.alt_q ++ g ∷ [] } in
      let (chan', at, how) =
        chan_next (joins g) u (λ chan. refl) f (chan_of g) (chan_of g') h.chan_at in
      let out' : elem g' (h.chan.alt_q ++ g ∷ []) ≡ false =
        elem-append g' h.chan.alt_q (g ∷ []) ∙ ground (arith, h.out) in
      record {
        guard = h.guard;
        at = rw ne h.at;
        typed = h.typed;
        on = h.on;
        chan = chan';
        chan_at = at;
        empty = elim how [ inl e ↦ rw e h.empty | inr e ↦ rw e h.empty ];
        out = elim how [ inl e ↦ rw e h.out | inr e ↦ rw e out' ];
      }

  pub Idle-rest :
      (f : ℕ → Option Chan) (gr : ℕ → Option Guard) (g : ℕ) (gs : List ℕ)
      → elem g gs ≡ false
      → All (Idle chan_of f gr) gs
      → All
          (Idle chan_of
            (update f (chan_of g) (joins g (f (chan_of g))))
            (update gr g (marks (gr g))))
          gs
  Idle-rest f gr g gs out = All-mono gs λ x m h. Idle-next f gr g x (ne_of_elem g x gs out m) h

  -- Where all guards are on channels at which no PROC waits, none is ready, and every guard is put
  -- last into the queue of its channel.
  pub enable_guards-joined :
      (a : ℕ) (gs : List ℕ) (s : State)
      → distinct gs ≡ true
      → All (Idle chan_of s.chans s.guards) gs
      → enable_guards a gs s
        ≡ ret tt (record s { chans = joined chan_of gs s.chans; guards = marked gs s.guards })
  unfolding enable_guards
  enable_guards-joined a [] s d all = refl
  enable_guards-joined a (g ∷ gs) s d (h, all) =
      let (out, once) = distinct-uncons g gs d in
      rw (enable_lem s g h)
        (enable_guards-joined a gs (enabled s g) once (Idle-rest s.chans s.guards g gs out all))
