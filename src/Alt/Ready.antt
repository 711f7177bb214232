-- ===== src/Alt/Ready.antt =====
-- enable_guards and disable_guards of alt_select where a writer waits at some of the channels.
use libproxc.Base.{
  ℕ, ◌+◌, ◌≡◌, refl, ap, sym, ◌∙◌, Bool, true, not, ◌&&◌, Option, some, List, [], ◌∷◌, ◌++◌, arith,
  ◌==◌, ==_refl, ==_iff, elem, distinct, length, length-append, distinct-uncons, update, All,
  Bool-cases, inl, inr,
}
use mathlib.Core.List.{reverse, reverse-cons, append-nil}
use libproxc.Platform.{Platform}
use libproxc.Store.{State, ChanEndType, Alt, ret}
use libproxc.Chan.Keeps.{Ends}
use libproxc.Alt.Select.{enable_guards}
use libproxc.Alt.Queues.{joined, marked, enabled, enable_lem}
use libproxc.Alt.Offers.{Stands, Stands-rest, idle_of, Noted, Noted-ready, Noted-idle, offered_lem}

pub elem-idle_of :
    (offers : ℕ → Bool) (g : ℕ) (gs : List ℕ)
    → elem g (idle_of offers gs) ≡ (elem g gs && not (offers g))
elem-idle_of offers g [] = refl
elem-idle_of offers g (x ∷ gs) = elim (Bool-cases (g == x)) [
  | inl here ↦
      let same : offers x ≡ offers g = ap offers (sym ((==_iff g x).0 here)) in
      elim (Bool-cases (offers g)) [
        | inl o ↦ rw (same, o) (elem-idle_of offers g gs ∙ ground (arith, o))
        | inr o ↦ rw (same, o) (ground (arith, here))
      ]
  | inr other ↦ elim (Bool-cases (offers x)) [
    | inl o ↦ rw (o, other) (elem-idle_of offers g gs)
    | inr o ↦ rw (o, other) (elem-idle_of offers g gs)
  ]
]

pub distinct-idle_of :
    (offers : ℕ → Bool) (gs : List ℕ) → distinct gs ≡ true → distinct (idle_of offers gs) ≡ true
distinct-idle_of offers [] d = refl
distinct-idle_of offers (x ∷ gs) d =
    let (out, once) = distinct-uncons x gs d in
    let rest = distinct-idle_of offers gs once in
    elim (Bool-cases (offers x)) [
      | inl o ↦ rw o rest
      | inr o ↦ rw (o, elem-idle_of offers x gs, out) rest
    ]

idle_of-append :
    (offers : ℕ → Bool) (xs ys : List ℕ)
    → idle_of offers (xs ++ ys) ≡ idle_of offers xs ++ idle_of offers ys
idle_of-append offers [] ys = refl
idle_of-append offers (x ∷ xs) ys = elim (Bool-cases (offers x)) [
  | inl o ↦ rw o (idle_of-append offers xs ys)
  | inr o ↦ rw o (ap (λ l. x ∷ l) (idle_of-append offers xs ys))
]

pub idle_of-reverse :
    (offers : ℕ → Bool) (gs : List ℕ) → idle_of offers (reverse gs) ≡ reverse (idle_of offers gs)
idle_of-reverse offers [] = refl
idle_of-reverse offers (x ∷ gs) =
    let ih = idle_of-reverse offers gs in
    ap (idle_of offers) (reverse-cons x gs)
    ∙ idle_of-append offers (reverse gs) (x ∷ [])
    ∙ ap (λ l. l ++ idle_of offers (x ∷ [])) ih
    ∙ elim (Bool-cases (offers x)) [
      | inl o ↦ rw o (append-nil (reverse (idle_of offers gs)))
      | inr o ↦ rw o (sym (reverse-cons x (idle_of offers gs)))
    ]

module _ ⦃v : Platform⦄ (chan_of : ℕ → ℕ) (offers : ℕ → Bool) where
  -- The guards at which a writer waits are noted as ready, the others are put into their queues.
  pub enable_guards-Noted :
      (a : ℕ) (gs old : List ℕ) (s : State) (alt : Alt)
      → distinct gs ≡ true
      → All (Stands chan_of offers (Ends s ChanEndType.writer) s.chans s.guards) gs
      → s.alts a ≡ some (record alt { ready_num = length old; ready_guards = some old })
      → (alts' : ℕ → Option Alt) × (now : List ℕ) × (enable_guards a gs s
          ≡ ret tt (record s {
            chans = joined chan_of (idle_of offers gs) s.chans;
            guards = marked (idle_of offers gs) s.guards;
            alts = alts';
          }))
        × (alts' a ≡ some (record alt { ready_num = length now; ready_guards = some now }))
        × Noted offers old gs now
  unfolding enable_guards
  enable_guards-Noted a [] old s alt d all at =
      (s.alts, old, refl, at, record { members = λ x. ground arith })
  enable_guards-Noted a (g ∷ gs) old s alt d (h, all) at =
      let (out, once) = distinct-uncons g gs d in
      elim h [
        | inl (o, w) ↦
            let noted : Alt = record alt {
              ready_num = length old + 1;
              ready_guards = some (old ++ g ∷ []);
            } in
            let s' : State = record s { alts = update s.alts a (some noted) } in
            let (alts', now, runs, at', n) =
              enable_guards-Noted a gs (old ++ g ∷ []) s' alt once all (
                rw (==_refl a) (
                  ap (λ n. some (record alt { ready_num = n; ready_guards = some (old ++ g ∷ []) }))
                    (sym (length-append old (g ∷ []))))) in
            (
              alts',
              now,
              rw (o, offered_lem chan_of s g w, at) runs,
              at',
              Noted-ready offers old gs now g o n,
            )
        | inr (o, w) ↦
            let (alts', now, runs, at', n) =
              enable_guards-Noted a gs old (enabled chan_of s g) alt once
                (Stands-rest chan_of offers (Ends s ChanEndType.writer) s.chans s.guards g gs out
                  all)
                at in
            (
              alts',
              now,
              rw (o, enable_lem chan_of s g w) runs,
              at',
              Noted-idle offers old gs now g o n,
            )
      ]
