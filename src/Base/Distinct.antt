-- ===== src/Base/Distinct.antt =====
-- Lists without repetition, and their parts.
use Prim.Native.Nat.{ℕ}
use mathlib.Core.Path.{◌≡◌, refl, sym, ◌∙◌, subst}
use mathlib.Core.Logic.{inl, inr}
use mathlib.Core.Bool.{true, false}
use mathlib.Core.List.{List, [], ◌∷◌, ◌++◌}
use native.Mathlib.Omega.{arith}
use libproxc.Base.Tests.{◌==◌, ==_iff, Bool-cases}
use libproxc.Base.Lists.{elem, elem-append, distinct}

pub distinct-append :
    (xs ys : List ℕ)
    → distinct (xs ++ ys) ≡ true
    → (distinct xs ≡ true) × (distinct ys ≡ true) × ((q : ℕ) → elem q ys ≡ true → elem q xs ≡ false)
distinct-append [] ys d = (refl, d, λ q m. refl)
distinct-append (x ∷ xs) ys d =
    let (dx, dy, apart) = distinct-append xs ys (ground arith) in
    let out : elem x (xs ++ ys) ≡ false = ground arith in
    let out' = sym (elem-append x xs ys) ∙ out in
    (
      ground (arith, out'),
      dy,
      λ q m. elim (Bool-cases (q == x)) [
        | inl same ↦
            let m' : elem x ys ≡ true = subst (λ z. elem z ys ≡ true) ((==_iff q x).0 same) m in
            absurd (ground (arith, m', out'))
        | inr other ↦ rw (other, apart q m)
      ],
    )

pub distinct-cons :
    (b : ℕ) (xs : List ℕ) → elem b xs ≡ false → distinct xs ≡ true → distinct (b ∷ xs) ≡ true
distinct-cons b xs out d = rw (out, d)

pub distinct-uncons :
    (b : ℕ) (xs : List ℕ) → distinct (b ∷ xs) ≡ true → (elem b xs ≡ false) × (distinct xs ≡ true)
distinct-uncons b xs d = (ground arith, ground arith)

pub out-append :
    (b : ℕ) (xs ys : List ℕ) → elem b (xs ++ ys) ≡ false → (elem b xs ≡ false) × (elem b ys ≡ false)
out-append b xs ys h =
    let split = sym (elem-append b xs ys) ∙ h in (ground (arith, split), ground (arith, split))
