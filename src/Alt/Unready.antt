-- ===== src/Alt/Unready.antt =====
-- disable_guards of alt_select takes the guards out of the queues that are in one, and passes over
-- those at which a writer waits.
use libproxc.Base.{
  All-elem, ℕ, ◌≡◌, refl, ap, ◌∙◌, Bool, true, false, Option, some, List, [], ◌∷◌, arith, elem,
  ne_of_elem, distinct, distinct-uncons, All, All-mono, inl, inr, ◌⊎◌,
}
use mathlib.Core.List.{reverse}
use libproxc.Platform.{Platform}
use libproxc.Store.{State, GuardType, guard_chan, Guard, Chan, ret}
use libproxc.Alt.Select.{disable_as, alt_disable, disable_guards}
use libproxc.Alt.Queues.{joined, parted, marked, marked-other, Idle, Linked}
use libproxc.Alt.Leave.{
  All-reverse, distinct-reverse, disabled, disable_lem, Linked-parts, joined-All_Linked,
  parted-joined,
}
use libproxc.Alt.Offers.{Stands, idle_of}
use libproxc.Alt.Ready.{elem-idle_of, distinct-idle_of, idle_of-reverse}

-- A guard on a channel that is in no queue.
pub record Outside (guards : ℕ → Option Guard) (g : ℕ) : Type 0 where
  pub guard : Guard
  pub at : guards g ≡ some guard
  pub typed : guard.type ≡ guard_chan
  pub outside : guard.in_chan ≡ false

abbrev pub Leaves :
    (chan_of : ℕ → ℕ) (offers : ℕ → Bool) → (ℕ → Option Chan) → (ℕ → Option Guard) → ℕ → Type 0
Leaves chan_of offers f gr g =
    ((offers g ≡ true) × Outside gr g) ⊎ ((offers g ≡ false) × Linked chan_of f gr g)

module _ ⦃v : Platform⦄ (chan_of : ℕ → ℕ) (offers : ℕ → Bool) where
  outside_as :
      (s : State) (g : ℕ) (type : GuardType) (guard : Guard)
      → type ≡ guard_chan
      → guard.in_chan ≡ false
      → disable_as type guard g s ≡ ret tt s
  unfolding disable_as
  outside_as s g type guard e out = rw (e, out)

  outside_lem : (s : State) (g : ℕ) → Outside s.guards g → alt_disable g s ≡ ret tt s
  unfolding alt_disable
  outside_lem s g h =
      let loads : alt_disable g s ≡ disable_as h.guard.type h.guard g s = rw h.at in
      loads ∙ outside_as s g h.guard.type h.guard h.typed h.outside

  disable_guards-idle :
      (gs : List ℕ) (s : State)
      → distinct gs ≡ true
      → All (Leaves chan_of offers s.chans s.guards) gs
      → disable_guards gs s
        ≡ ret tt (record s { chans = parted chan_of (idle_of offers gs) s.chans })
  unfolding disable_guards
  disable_guards-idle [] s d all = refl
  disable_guards-idle (g ∷ gs) s d (h, all) =
      let (out, once) = distinct-uncons g gs d in
      elim h [
        | inl (o, w) ↦ rw (o, outside_lem s g w) (disable_guards-idle gs s once all)
        | inr (o, w) ↦
            rw (o, disable_lem chan_of s g w)
              (disable_guards-idle gs (disabled chan_of s g) once (
                All-mono gs
                  (λ x m l. elim l [
                    | inl still ↦ inl still
                    | inr (ox, wx) ↦
                        inr (
                          ox,
                          Linked-parts chan_of s.chans s.guards g x (ne_of_elem g x gs out m) wx,
                        )
                  ])
                  all))
      ]

  module _ (Writes : ℕ → Type 0) (f : ℕ → Option Chan) (gr : ℕ → Option Guard) (gs : List ℕ)
      (d : distinct gs ≡ true) (all : All (Stands chan_of offers Writes f gr) gs) where
    All_Idle :
        (xs : List ℕ)
        → All (Stands chan_of offers Writes f gr) xs
        → All (Idle chan_of f gr) (idle_of offers xs)
    All_Idle [] w = tt
    All_Idle (x ∷ xs) (h, w) = elim h [
      | inl (o, _) ↦ rw o (All_Idle xs w)
      | inr (o, i) ↦ rw o (i, All_Idle xs w)
    ]

    queues_restored :
        parted chan_of (reverse (idle_of offers gs)) (joined chan_of (idle_of offers gs) f) ≡ f
    queues_restored =
        parted-joined chan_of f gr (idle_of offers gs) (distinct-idle_of offers gs d)
          (All_Idle gs all)

    -- A guard at which a writer waits is as it was.
    pub offered-kept : (g : ℕ) → offers g ≡ true → marked (idle_of offers gs) gr g ≡ gr g
    offered-kept g o =
        marked-other (idle_of offers gs) gr g (elem-idle_of offers g gs ∙ ground (arith, o))

    leaving :
        (xs : List ℕ)
        → All (Stands chan_of offers Writes f gr) xs
        → ((x : ℕ) → elem x xs ≡ true → elem x gs ≡ true)
        → All
            (Leaves chan_of offers
              (joined chan_of (idle_of offers gs) f)
              (marked (idle_of offers gs) gr))
            xs
    leaving xs w sub =
        All-mono xs
          (λ x m h. elim h [
            | inl (o, k) ↦ inl (
              o,
              record {
                guard = k.guard;
                at = offered-kept x o ∙ k.at;
                typed = k.typed;
                outside = k.outside;
              },
            )
            | inr (o, _) ↦ inr (
              o,
              All-elem _ (idle_of offers gs) x
                  (joined-All_Linked chan_of f gr (idle_of offers gs) (distinct-idle_of offers gs d)
                    (All_Idle gs all))
                  (elem-idle_of offers x gs ∙ ground (arith, o, sub x m)),
            )
          ])
          w

  -- After enable_guards, disable_guards leaves every channel as it was before.
  pub disable-undoes :
      (Writes : ℕ → Type 0) (f : ℕ → Option Chan) (gr : ℕ → Option Guard) (gs : List ℕ) (t : State)
      → distinct gs ≡ true
      → All (Stands chan_of offers Writes f gr) gs
      → t.chans ≡ joined chan_of (idle_of offers gs) f
      → t.guards ≡ marked (idle_of offers gs) gr
      → disable_guards (reverse gs) t ≡ ret tt (record t { chans = f })
  disable-undoes Writes f gr gs t d all chans guards =
      let rev : All (Leaves chan_of offers t.chans t.guards) (reverse gs) =
        All-reverse _ gs (rw (chans, guards) (leaving Writes f gr gs d all gs all (λ x m. m))) in
      disable_guards-idle (reverse gs) t (distinct-reverse gs d) rev
      ∙ ap (λ k. ret tt (record t { chans = k }))
          (ap (λ l. parted chan_of l t.chans) (idle_of-reverse offers gs)
            ∙ ap (λ k. parted chan_of (reverse (idle_of offers gs)) k) chans
            ∙ queues_restored Writes f gr gs d all)
