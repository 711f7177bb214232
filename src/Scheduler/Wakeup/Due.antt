-- ===== src/Scheduler/Wakeup/Due.antt =====
-- The front of a tree of sleepers: the nodes whose time is up.
use libproxc.Base.{
  ℕ, ◌<◌, ◌≡◌, refl, sym, ap, true, false, List, [], ◌∷◌, ◌++◌, arith, ltb, leb, ◌==◌, ==_iff,
  if◌then◌else◌, elem, distinct, Bool-cases, inl, inr,
}
use mathlib.Core.Path.{subst}
use libproxc.Platform.{above, sorted_by}

-- The nodes at the front of a tree whose time is up, and the others.
abbrev pub due : (ℕ → ℕ) → (now_us : ℕ) → List ℕ → List ℕ
due key now [] = []
due key now (p ∷ t) = let rest = due key now t in if ltb now (key p) then [] else p ∷ rest

abbrev pub still : (ℕ → ℕ) → (now_us : ℕ) → List ℕ → List ℕ
still key now [] = []
still key now (p ∷ t) = let rest = still key now t in if ltb now (key p) then p ∷ t else rest

pub due-still : (now_us : ℕ) (key : ℕ → ℕ) (t : List ℕ) → t ≡ due key now_us t ++ still key now_us t
due-still now_us key [] = refl
due-still now_us key (p ∷ t) = ground (arith, due-still now_us key t)

pub above-elem :
    (key : ℕ → ℕ) (k q : ℕ) (t : List ℕ) → above key k t ≡ true → elem q t ≡ true → k < key q
above-elem key k q [] a m = cc
above-elem key k q (p ∷ t) a m = elim (Bool-cases (q == p)) [
  | inl same ↦ subst (λ x. k < key x) (sym ((==_iff q p).0 same)) (ground arith)
  | inr other ↦ above-elem key k q t (ground arith) (ground arith)
]

pub due-elem :
    (now_us : ℕ) (key : ℕ → ℕ) (q : ℕ) (t : List ℕ)
    → sorted_by key t ≡ true
    → elem q t ≡ true
    → elem q (due key now_us t) ≡ leb (key q) now_us
due-elem now_us key q [] sorted m = cc
due-elem now_us key q (p ∷ t) sorted m = elim (Bool-cases (q == p)) [
  | inl same ↦ let eq : key q ≡ key p = ap key ((==_iff q p).0 same) in ground (arith, same, eq)
  | inr other ↦
      let later : key p < key q = above-elem key (key p) q t (ground arith) (ground arith) in
      ground (arith, other, later, due-elem now_us key q t)
]

above-out : (key : ℕ → ℕ) (q : ℕ) (t : List ℕ) → above key (key q) t ≡ true → elem q t ≡ false
above-out key q t a = elim (Bool-cases (elem q t)) [
  | inl m ↦ absurd (omega (arith, above-elem key (key q) q t a m))
  | inr out ↦ out
]

pub sorted_by-distinct : (key : ℕ → ℕ) (t : List ℕ) → sorted_by key t ≡ true → distinct t ≡ true
sorted_by-distinct key [] sorted = refl
sorted_by-distinct key (p ∷ t) sorted = ground (arith, above-out key p t, sorted_by-distinct key t)
