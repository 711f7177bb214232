-- ===== src/Platform/Model.antt =====
-- An instance of the interface, by lists; it shows that the laws can hold.
use libproxc.Base.{
  ℕ, zero, ◌+◌, ◌-◌, ◌≡◌, refl, true, false, ◌&&◌, Option, none, some, List, [], ◌∷◌, ◌++◌, arith,
  ltb, leb, if◌then◌else◌, elem, erase, head?, ℤ, pos, negsuc,
}
use libproxc.Platform.{Platform, find_key, insert_sorted, sorted_by, order}

-- The first node that compares equal.
find_cmp : (ℕ → ℕ → ℤ) → ℕ → List ℕ → Option ℕ
find_cmp cmp x [] = none
find_cmp cmp x (y ∷ ys) =
    let rest = find_cmp cmp x ys in elim (cmp x y) [ pos zero ↦ some y | _ ↦ rest ]

insert_cmp : (ℕ → ℕ → ℤ) → ℕ → List ℕ → List ℕ
insert_cmp cmp x [] = x ∷ []
insert_cmp cmp x (y ∷ ys) =
    let rest = insert_cmp cmp x ys in elim (cmp x y) [ negsuc _ ↦ x ∷ y ∷ ys | _ ↦ y ∷ rest ]

find_cmp-find_key :
    (cmp : ℕ → ℕ → ℤ) (key : ℕ → ℕ)
    → ((a b : ℕ) → cmp a b ≡ order (key a) (key b))
    → (x : ℕ) (t : List ℕ) → find_cmp cmp x t ≡ find_key key (key x) t
unfolding find_cmp
find_cmp-find_key cmp key h x [] = refl
find_cmp-find_key cmp key h x (y ∷ t) = ground (arith, h x y, find_cmp-find_key cmp key h x t)

insert_cmp-insert_sorted :
    (cmp : ℕ → ℕ → ℤ) (key : ℕ → ℕ)
    → ((a b : ℕ) → cmp a b ≡ order (key a) (key b))
    → (x : ℕ) (t : List ℕ) → insert_cmp cmp x t ≡ insert_sorted key x t
unfolding insert_cmp
insert_cmp-insert_sorted cmp key h x [] = refl
insert_cmp-insert_sorted cmp key h x (y ∷ t) =
    ground (arith, h x y, insert_cmp-insert_sorted cmp key h x t)

insert_rb : (ℕ → ℕ → ℤ) → List ℕ → ℕ → List ℕ × Option ℕ
insert_rb cmp t x = elim (find_cmp cmp x t) [
  | none ↦ (insert_cmp cmp x t, none)
  | some y ↦ (t, some y)
]

insert_rb_lem :
    (cmp : ℕ → ℕ → ℤ) (key : ℕ → ℕ)
    → ((a b : ℕ) → cmp a b ≡ order (key a) (key b))
    → (t : List ℕ) (x : ℕ) → elem x t ≡ false
    → sorted_by key t ≡ true
    → insert_rb cmp t x ≡ elim (find_key key (key x) t) [
      | none ↦ (insert_sorted key x t, none)
      | some y ↦ (t, some y)
    ]
unfolding insert_rb
insert_rb_lem cmp key h t x n s =
    ground (arith, find_cmp-find_key cmp key h x t, insert_cmp-insert_sorted cmp key h x t)

copy : (ℕ → ℕ) → (dst src n : ℕ) → ℕ → ℕ
copy m dst src n a = if leb dst a && ltb a (dst + n) then m (src + (a - dst)) else m a

instance unfoldable pub lists : Platform
unfolding insert_rb copy find_cmp insert_cmp insert_rb_lem find_cmp-find_key
    insert_cmp-insert_sorted
lists = record {
  insert_tail = λ q x. q ++ x ∷ [];
  remove = λ q x. erase x q;
  rb_insert = insert_rb;
  rb_remove = λ t x. erase x t;
  rb_min = head?;
  memcpy = copy;
  insert_tail_lem = λ q x h. refl;
  remove_lem = λ q x h. refl;
  rb_insert_lem = insert_rb_lem;
  rb_remove_lem = λ t x h. refl;
  rb_min_lem = λ t. refl;
  memcpy_lem = λ m dst src n h a. refl;
}
