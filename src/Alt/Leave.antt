-- ===== src/Alt/Leave.antt =====
-- disable_guards of alt_select takes the guards out of the queues that enable_guards has put them
-- into, and leaves every channel as it was.
use libproxc.Base.{
  ℕ, ◌≡◌, refl, ap, ◌∙◌, fun_ext, true, false, Option, some, List, [], ◌∷◌, ◌++◌, arith, ◌==◌,
  ==_refl, ==_iff, elem, erase, erase-snoc, elem-append, elem-erase_ne, ne_of_elem, distinct,
  distinct-uncons, distinct-snoc, update, All, All-mono, All-append, Bool-cases, inl, inr,
}
use mathlib.Core.List.{reverse, reverse-cons}
use libproxc.Platform.{Platform}
use libproxc.Platform.Links.{tailq_remove_lem}
use libproxc.Store.{State, GuardType, guard_chan, Guard, Chan, ret}
use libproxc.Chan.Ops.{chan_altdisable}
use libproxc.Alt.Select.{disable_as, alt_disable, disable_guards}
use libproxc.Alt.Queues.{
  joins, parts, marks, joined, parted, marked, Idle, Idle-rest, Linked, chan_next,
}

elem-reverse : (a : ℕ) (xs : List ℕ) → elem a (reverse xs) ≡ elem a xs
elem-reverse a [] = refl
elem-reverse a (x ∷ xs) =
    ap (elem a) (reverse-cons x xs)
    ∙ elem-append a (reverse xs) (x ∷ [])
    ∙ ground (arith, elem-reverse a xs)

pub distinct-reverse : (xs : List ℕ) → distinct xs ≡ true → distinct (reverse xs) ≡ true
distinct-reverse [] d = refl
distinct-reverse (x ∷ xs) d =
    let (out, once) = distinct-uncons x xs d in
    rw (reverse-cons x xs)
      (distinct-snoc (reverse xs) x (distinct-reverse xs once) (elem-reverse x xs ∙ out))

pub All-reverse : (P : ℕ → Type 0) (xs : List ℕ) → All P xs → All P (reverse xs)
All-reverse P [] w = tt
All-reverse P (x ∷ xs) (h, w) =
    rw (reverse-cons x xs) (All-append P (reverse xs) (x ∷ []) (All-reverse P xs w) (h, tt))

module _ ⦃v : Platform⦄ (chan_of : ℕ → ℕ) where
  abbrev pub disabled : State → ℕ → State
  disabled s g = record s { chans = update s.chans (chan_of g) (parts g (s.chans (chan_of g))) }

  disable_as-chan :
      (s : State) (g : ℕ) (type : GuardType)
      → (h : Linked chan_of s.chans s.guards g) → type ≡ guard_chan
      → disable_as type h.guard g s ≡ ret tt (disabled s g)
  unfolding disable_as chan_altdisable
  disable_as-chan s g type h e = rw (
    e,
    h.marked,
    h.on,
    h.chan_at,
    h.at,
    h.on,
    ==_refl (chan_of g),
    tailq_remove_lem h.chan.alt_q g,
    h.linked,
  )

  pub disable_lem :
      (s : State) (g : ℕ)
      → Linked chan_of s.chans s.guards g
      → alt_disable g s ≡ ret tt (disabled s g)
  unfolding alt_disable
  disable_lem s g h =
      let loads : alt_disable g s ≡ disable_as h.guard.type h.guard g s = rw h.at in
      loads ∙ disable_as-chan s g h.guard.type h h.typed

  pub Linked-parts :
      (f : ℕ → Option Chan) (gr : ℕ → Option Guard) (g g' : ℕ)
      → (g == g') ≡ false
      → Linked chan_of f gr g'
      → Linked chan_of (update f (chan_of g) (parts g (f (chan_of g)))) gr g'
  Linked-parts f gr g g' ne h =
      let u : Chan → Chan = λ chan. record chan { alt_q = erase g chan.alt_q } in
      let (chan', at, how) =
        chan_next chan_of (parts g) u (λ chan. refl) f (chan_of g) (chan_of g') h.chan_at in
      let still : elem g' (erase g h.chan.alt_q) ≡ true =
        elem-erase_ne g' g h.chan.alt_q (ground arith) ∙ h.linked in
      record {
        guard = h.guard;
        at = h.at;
        typed = h.typed;
        on = h.on;
        marked = h.marked;
        chan = chan';
        chan_at = at;
        linked = elim how [ inl e ↦ rw e h.linked | inr e ↦ rw e still ];
      }

  Linked-joins :
      (f : ℕ → Option Chan) (gr : ℕ → Option Guard) (g g' : ℕ)
      → (g == g') ≡ false
      → Linked chan_of f gr g'
      → Linked chan_of
          (update f (chan_of g) (joins g (f (chan_of g))))
          (update gr g (marks (gr g)))
          g'
  Linked-joins f gr g g' ne h =
      let u : Chan → Chan = λ chan. record chan { alt_q = chan.alt_q ++ g ∷ [] } in
      let (chan', at, how) =
        chan_next chan_of (joins g) u (λ chan. refl) f (chan_of g) (chan_of g') h.chan_at in
      let still : elem g' (h.chan.alt_q ++ g ∷ []) ≡ true =
        elem-append g' h.chan.alt_q (g ∷ []) ∙ ground (arith, h.linked) in
      record {
        guard = h.guard;
        at = rw ne h.at;
        typed = h.typed;
        on = h.on;
        marked = h.marked;
        chan = chan';
        chan_at = at;
        linked = elim how [ inl e ↦ rw e h.linked | inr e ↦ rw e still ];
      }

  Linked-joined :
      (f : ℕ → Option Chan) (gr : ℕ → Option Guard) (gs : List ℕ) (g : ℕ)
      → elem g gs ≡ false
      → Linked chan_of f gr g
      → Linked chan_of (joined chan_of gs f) (marked gs gr) g
  Linked-joined f gr [] g out h = h
  Linked-joined f gr (x ∷ gs) g out h =
      Linked-joined (update f (chan_of x) (joins x (f (chan_of x)))) (update gr x (marks (gr x))) gs
        g (ground arith) (Linked-joins f gr x g (ground arith) h)

  Linked-own :
      (f : ℕ → Option Chan) (gr : ℕ → Option Guard) (g : ℕ)
      → Idle chan_of f gr g
      → Linked chan_of
          (update f (chan_of g) (joins g (f (chan_of g))))
          (update gr g (marks (gr g)))
          g
  Linked-own f gr g h = record {
    guard = record h.guard { in_chan = true };
    at = rw (==_refl g, h.at);
    typed = h.typed;
    on = h.on;
    marked = refl;
    chan = record h.chan { alt_q = h.chan.alt_q ++ g ∷ [] };
    chan_at = rw (==_refl (chan_of g), h.chan_at);
    linked = elem-append g h.chan.alt_q (g ∷ []) ∙ ground arith;
  }

  -- Every guard that enable_guards has put into a queue stands in it.
  pub joined-All_Linked :
      (f : ℕ → Option Chan) (gr : ℕ → Option Guard) (gs : List ℕ)
      → distinct gs ≡ true
      → All (Idle chan_of f gr) gs
      → All (Linked chan_of (joined chan_of gs f) (marked gs gr)) gs
  joined-All_Linked f gr [] d all = tt
  joined-All_Linked f gr (g ∷ gs) d (h, all) =
      let (out, once) = distinct-uncons g gs d in
      let f' = update f (chan_of g) (joins g (f (chan_of g))) in
      let gr' = update gr g (marks (gr g)) in
      (
        Linked-joined f' gr' gs g out (Linked-own f gr g h),
        joined-All_Linked f' gr' gs once (Idle-rest chan_of f gr g gs out all),
      )

  disable_guards-parted :
      (gs : List ℕ) (s : State)
      → distinct gs ≡ true
      → All (Linked chan_of s.chans s.guards) gs
      → disable_guards gs s ≡ ret tt (record s { chans = parted chan_of gs s.chans })
  unfolding disable_guards
  disable_guards-parted [] s d all = refl
  disable_guards-parted (g ∷ gs) s d (h, all) =
      let (out, once) = distinct-uncons g gs d in
      rw (disable_lem s g h) (
        disable_guards-parted gs (disabled s g) once (
          All-mono gs (λ x m l. Linked-parts s.chans s.guards g x (ne_of_elem g x gs out m) l) all))

  pub disable-reverse :
      (gs : List ℕ) (s : State)
      → distinct gs ≡ true
      → All (Linked chan_of s.chans s.guards) gs
      → disable_guards (reverse gs) s
        ≡ ret tt (record s { chans = parted chan_of (reverse gs) s.chans })
  disable-reverse gs s d all =
      disable_guards-parted (reverse gs) s (distinct-reverse gs d) (All-reverse _ gs all)

  parted-append :
      (xs ys : List ℕ) (f : ℕ → Option Chan)
      → parted chan_of (xs ++ ys) f ≡ parted chan_of ys (parted chan_of xs f)
  parted-append [] ys f = refl
  parted-append (x ∷ xs) ys f = parted-append xs ys (update f (chan_of x) (parts x (f (chan_of x))))

  parts-joins :
      (f : ℕ → Option Chan) (c g : ℕ) {chan : Chan}
      → f c ≡ some chan
      → elem g chan.alt_q ≡ false
      → let f' = update f c (joins g (f c)) in update f' c (parts g (f' c)) ≡ f
  parts-joins f c g {chan} at out =
      let back : parts g (joins g (f c)) ≡ f c =
        rw at (ap (λ q. some (record chan { alt_q = q })) (erase-snoc g chan.alt_q out)) in
      fun_ext λ a. elim (Bool-cases (c == a)) [
        | inl here ↦ rw (here, ==_refl c) (back ∙ ap f ((==_iff c a).0 here))
        | inr other ↦ rw other
      ]

  -- What disable_guards makes of the channels undoes what enable_guards has made of them.
  pub parted-joined :
      (f : ℕ → Option Chan) (gr : ℕ → Option Guard) (gs : List ℕ)
      → distinct gs ≡ true
      → All (Idle chan_of f gr) gs
      → parted chan_of (reverse gs) (joined chan_of gs f) ≡ f
  parted-joined f gr [] d all = refl
  parted-joined f gr (g ∷ gs) d (h, all) =
      let (out, once) = distinct-uncons g gs d in
      let f' = update f (chan_of g) (joins g (f (chan_of g))) in
      let back =
        parted-joined f' (update gr g (marks (gr g))) gs once
          (Idle-rest chan_of f gr g gs out all) in
      ap (λ l. parted chan_of l (joined chan_of gs f')) (reverse-cons g gs)
      ∙ parted-append (reverse gs) (g ∷ []) (joined chan_of gs f')
      ∙ ap (λ k. update k (chan_of g) (parts g (k (chan_of g)))) back
      ∙ parts-joins f (chan_of g) g h.chan_at h.out
