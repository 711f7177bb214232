-- ===== src/Platform/Keys.antt =====
-- Lists in the order of their keys: insertion and search.
use libproxc.Base.{ℕ, ◌<◌, ◌≡◌, refl, true, none, List, [], ◌∷◌, arith, elem}
use libproxc.Platform.{find_key, insert_sorted, above, sorted_by}

module _ (f g : ℕ → ℕ) where
  -- Only the keys of the members count.
  pub find_key-congr :
      (k : ℕ) (t : List ℕ)
      → ((y : ℕ) → elem y t ≡ true → f y ≡ g y)
      → find_key f k t ≡ find_key g k t
  find_key-congr k [] same = refl
  find_key-congr k (y ∷ t) same =
      let here : f y ≡ g y = same y (ground arith) in
      rw (here, find_key-congr k t (λ z m. same z (ground (arith, m))))

  pub above-congr :
      (k : ℕ) (t : List ℕ) → ((y : ℕ) → elem y t ≡ true → f y ≡ g y) → above f k t ≡ above g k t
  above-congr k [] same = refl
  above-congr k (y ∷ t) same =
      let here : f y ≡ g y = same y (ground arith) in
      rw (here, above-congr k t (λ z m. same z (ground (arith, m))))

  pub sorted_by-congr :
      (t : List ℕ) → ((y : ℕ) → elem y t ≡ true → f y ≡ g y) → sorted_by f t ≡ sorted_by g t
  sorted_by-congr [] same = refl
  sorted_by-congr (y ∷ t) same =
      let here : f y ≡ g y = same y (ground arith) in
      let tail = λ (z : ℕ) (m : elem z t ≡ true). same z (ground (arith, m)) in
      rw (here, above-congr (g y) t tail, sorted_by-congr t tail)

module _ (key : ℕ → ℕ) where
  above-insert_sorted :
      (k x : ℕ) (t : List ℕ)
      → k < key x
      → above key k t ≡ true
      → above key k (insert_sorted key x t) ≡ true
  above-insert_sorted k x [] h a = ground arith
  above-insert_sorted k x (y ∷ t) h a = ground (arith, above-insert_sorted k x t)

  above_trans : (j k : ℕ) (t : List ℕ) → j < k → above key k t ≡ true → above key j t ≡ true
  above_trans j k [] h a = refl
  above_trans j k (y ∷ t) h a = ground (arith, above_trans j k t)

  -- A node whose key is not taken is put in at its place.
  pub sorted_by-insert_sorted :
      (x : ℕ) (t : List ℕ)
      → find_key key (key x) t ≡ none
      → sorted_by key t ≡ true
      → sorted_by key (insert_sorted key x t) ≡ true
  sorted_by-insert_sorted x [] free s = refl
  sorted_by-insert_sorted x (y ∷ t) free s = ground (
    arith,
    sorted_by-insert_sorted x t,
    above-insert_sorted (key y) x t,
    above_trans (key x) (key y) t,
  )

  pub elem-insert_sorted : (a x : ℕ) (t : List ℕ) → elem a (insert_sorted key x t) ≡ elem a (x ∷ t)
  elem-insert_sorted a x [] = refl
  elem-insert_sorted a x (y ∷ t) = ground (arith, elem-insert_sorted a x t)
