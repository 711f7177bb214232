-- ===== src/Base/Lists.antt =====
-- Lists of addresses: membership as a test, removal, distinctness.
use Prim.Native.Nat.{ℕ, zero, suc, ◌+◌}
use mathlib.Core.Path.{◌≡◌, refl, sym, subst}
use mathlib.Core.Logic.{inl, inr}
use mathlib.Core.Bool.{Bool, true, false, not, ◌&&◌, ◌||◌}
use mathlib.Core.Option.{Option, none, some}
use mathlib.Core.List.{List, [], ◌∷◌, ◌++◌}
use native.Mathlib.Omega.{arith}
use libproxc.Base.Tests.{==_refl, ==_iff, Bool-cases, ◌==◌, if◌then◌else◌}

module _ {ℓ} {A : Type ℓ} where
  abbrev pub length : List A → ℕ
  length [] = 0
  length (x ∷ xs) = suc (length xs)

  abbrev pub get_elem? : List A → ℕ → Option A
  get_elem? [] i = none
  get_elem? (x ∷ xs) zero = some x
  get_elem? (x ∷ xs) (suc i) = get_elem? xs i

  abbrev pub head? : List A → Option A
  head? [] = none
  head? (x ∷ xs) = some x

  abbrev pub is_empty : List A → Bool
  is_empty [] = true
  is_empty (x ∷ xs) = false

  pub length-append : (xs ys : List A) → length (xs ++ ys) ≡ length xs + length ys
  length-append [] ys = omega arith
  length-append (x ∷ xs) ys = omega (arith, length-append xs ys)

abbrev pub elem : ℕ → List ℕ → Bool
elem a [] = false
elem a (x ∷ xs) = a == x || elem a xs

-- Drops the first occurrence.
abbrev pub erase : ℕ → List ℕ → List ℕ
erase a [] = []
erase a (x ∷ xs) = let rest = erase a xs in if a == x then xs else x ∷ rest

abbrev pub distinct : List ℕ → Bool
distinct [] = true
distinct (x ∷ xs) = not (elem x xs) && distinct xs

pub elem-append : (a : ℕ) (xs ys : List ℕ) → elem a (xs ++ ys) ≡ (elem a xs || elem a ys)
elem-append a [] ys = refl
elem-append a (x ∷ xs) ys = ground (arith, elem-append a xs ys)

pub ne_of_elem : (p y : ℕ) (t : List ℕ) → elem p t ≡ false → elem y t ≡ true → (p == y) ≡ false
ne_of_elem p y [] out m = cc
ne_of_elem p y (x ∷ t) out m = ground (arith, ne_of_elem p y t)

pub distinct-snoc :
    (xs : List ℕ) (a : ℕ) → distinct xs ≡ true → elem a xs ≡ false → distinct (xs ++ a ∷ []) ≡ true
distinct-snoc [] a d n = refl
distinct-snoc (x ∷ xs) a d n = ground (arith, distinct-snoc xs a, elem-append x xs (a ∷ []))

pub elem-erase_of_not : (a b : ℕ) (xs : List ℕ) → elem a xs ≡ false → elem a (erase b xs) ≡ false
elem-erase_of_not a b [] n = refl
elem-erase_of_not a b (x ∷ xs) n = ground (arith, elem-erase_of_not a b xs)

pub elem-erase_self : (a : ℕ) (xs : List ℕ) → distinct xs ≡ true → elem a (erase a xs) ≡ false
elem-erase_self a [] d = refl
elem-erase_self a (x ∷ xs) d = ground (arith, elem-erase_self a xs)

pub elem-erase_ne : (a b : ℕ) (xs : List ℕ) → (a == b) ≡ false → elem a (erase b xs) ≡ elem a xs
elem-erase_ne a b [] n = refl
elem-erase_ne a b (x ∷ xs) n = ground (arith, elem-erase_ne a b xs)

pub distinct-erase : (a : ℕ) (xs : List ℕ) → distinct xs ≡ true → distinct (erase a xs) ≡ true
distinct-erase a [] d = refl
distinct-erase a (x ∷ xs) d = ground (arith, distinct-erase a xs, elem-erase_of_not x a xs)

pub length-erase : (a : ℕ) (xs : List ℕ) → elem a xs ≡ true → length xs ≡ suc (length (erase a xs))
length-erase a [] h = ground arith
length-erase a (x ∷ xs) h = ground (arith, length-erase a xs)

abbrev pub All {ℓ} : (ℕ → Type ℓ) → List ℕ → Type ℓ
All P [] = Unit
All P (x ∷ xs) = P x × All P xs

pub All-mono {ℓ κ} :
    {P : ℕ → Type ℓ} {Q : ℕ → Type κ} (xs : List ℕ)
    → ((x : ℕ) → elem x xs ≡ true → P x → Q x)
    → All P xs
    → All Q xs
All-mono [] f h = tt
All-mono (x ∷ xs) f h = (f x (ground arith) h.0, All-mono xs (λ y m. f y (ground (arith, m))) h.1)

pub All-append {ℓ} : (P : ℕ → Type ℓ) (xs ys : List ℕ) → All P xs → All P ys → All P (xs ++ ys)
All-append P [] ys hx hy = hy
All-append P (x ∷ xs) ys hx hy = (hx.0, All-append P xs ys hx.1 hy)

pub All-both {ℓ κ} :
    (P : ℕ → Type ℓ) (Q : ℕ → Type κ) (xs : List ℕ) → All P xs → All Q xs → All (λ x. P x × Q x) xs
All-both P Q [] h k = tt
All-both P Q (x ∷ xs) h k = ((h.0, k.0), All-both P Q xs h.1 k.1)

pub erase-snoc : (a : ℕ) (xs : List ℕ) → elem a xs ≡ false → erase a (xs ++ a ∷ []) ≡ xs
erase-snoc a [] out = rw (==_refl a)
erase-snoc a (x ∷ xs) out = ground (arith, erase-snoc a xs)

pub All-elem {ℓ} : (P : ℕ → Type ℓ) (xs : List ℕ) (x : ℕ) → All P xs → elem x xs ≡ true → P x
All-elem P [] x w m = absurd (cc m)
All-elem P (y ∷ xs) x (h, w) m = elim (Bool-cases (x == y)) [
  | inl here ↦ subst P (sym ((==_iff x y).0 here)) h
  | inr other ↦ All-elem P xs x w (ground (arith, m, other))
]
