-- ===== src/Platform.antt =====
-- What the code relies on beyond its own files: the BSD macro headers util/queue.h and util/tree.h,
-- and `memcpy`. A tail queue is read as the list of the addresses linked in it, first to last; a
-- red-black tree as the list of its nodes in the order of their keys. Linking a node that is linked
-- already, and unlinking one that is not, is undefined: the laws say nothing of it.
pub mod Keys
pub mod Links
pub mod Model
use libproxc.Base.{
  ℕ, ◌+◌, ◌-◌, ◌≤◌, ◌≡◌, ◌⊎◌, Bool, true, false, ◌&&◌, Option, none, some, List, [], ◌∷◌, ◌++◌, ltb,
  leb, ◌==◌, if◌then◌else◌, elem, erase, head?, ℤ, pos, negsuc,
}

-- The node whose key is `k`, if there is one.
abbrev pub find_key : (ℕ → ℕ) → ℕ → List ℕ → Option ℕ
find_key key k [] = none
find_key key k (y ∷ ys) = let rest = find_key key k ys in if key y == k then some y else rest

-- `x` put at its place among nodes in the order of their keys.
abbrev pub insert_sorted : (ℕ → ℕ) → ℕ → List ℕ → List ℕ
insert_sorted key x [] = x ∷ []
insert_sorted key x (y ∷ ys) =
    let rest = insert_sorted key x ys in if ltb (key x) (key y) then x ∷ y ∷ ys else y ∷ rest

-- Every key of the list is above `k`.
abbrev pub above : (ℕ → ℕ) → ℕ → List ℕ → Bool
above key k [] = true
above key k (y ∷ ys) = ltb k (key y) && above key k ys

-- The keys grow strictly along the list.
abbrev pub sorted_by : (ℕ → ℕ) → List ℕ → Bool
sorted_by key [] = true
sorted_by key (y ∷ ys) = above key (key y) ys && sorted_by key ys

-- The result of a comparison function by keys: -1, 0 or 1.
abbrev pub order : ℕ → ℕ → ℤ
order a b = if ltb a b then negsuc 0 else if a == b then pos 0 else pos 1

pub record Platform : Type 0 where
  -- TAILQ_INSERT_TAIL, TAILQ_REMOVE
  pub insert_tail : List ℕ → ℕ → List ℕ
  pub remove : List ℕ → ℕ → List ℕ
  -- RB_INSERT under a comparison function: the tree, and NULL or the node that compares equal
  pub rb_insert : (ℕ → ℕ → ℤ) → List ℕ → ℕ → List ℕ × Option ℕ
  pub rb_remove : List ℕ → ℕ → List ℕ
  pub rb_min : List ℕ → Option ℕ
  -- the bytes of memory after memcpy(dst, src, n)
  pub memcpy : (ℕ → ℕ) → (dst src n : ℕ) → ℕ → ℕ
  pub insert_tail_lem : (q : List ℕ) (x : ℕ) → elem x q ≡ false → insert_tail q x ≡ q ++ x ∷ []
  pub remove_lem : (q : List ℕ) (x : ℕ) → elem x q ≡ true → remove q x ≡ erase x q
  pub rb_insert_lem :
      (cmp : ℕ → ℕ → ℤ) (key : ℕ → ℕ)
      → ((a b : ℕ) → cmp a b ≡ order (key a) (key b))
      → (t : List ℕ) (x : ℕ) → elem x t ≡ false
      → sorted_by key t ≡ true
      → rb_insert cmp t x ≡ elim (find_key key (key x) t) [
        | none ↦ (insert_sorted key x t, none)
        | some y ↦ (t, some y)
      ]
  pub rb_remove_lem : (t : List ℕ) (x : ℕ) → elem x t ≡ true → rb_remove t x ≡ erase x t
  pub rb_min_lem : (t : List ℕ) → rb_min t ≡ head? t
  pub memcpy_lem :
      (m : ℕ → ℕ) (dst src n : ℕ)
      → (dst + n ≤ src) ⊎ (src + n ≤ dst)
      → (a : ℕ)
      → memcpy m dst src n a ≡ (if leb dst a && ltb a (dst + n) then m (src + (a - dst)) else m a)
