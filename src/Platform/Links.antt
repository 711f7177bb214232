-- ===== src/Platform/Links.antt =====
-- The link operations as the code calls them, with the misuse that C leaves undefined as a fault.
use libproxc.Base.{
  ℕ, ◌≡◌, Option, List, [], ◌∷◌, ◌++◌, if◌then◌else◌, elem, erase, Bool-cases, inl, inr, ℤ,
}
use libproxc.Platform.{Platform}
use libproxc.Store.{M, corrupt, pure, fail}

module _ ⦃v : Platform⦄ where
  unfoldable pub tailq_insert_tail : List ℕ → ℕ → M (List ℕ)
  tailq_insert_tail q x = if elem x q then fail corrupt else pure (v.insert_tail q x)

  unfoldable pub tailq_remove : List ℕ → ℕ → M (List ℕ)
  tailq_remove q x = if elem x q then pure (v.remove q x) else fail corrupt

  unfoldable pub rb_insert : (ℕ → ℕ → ℤ) → List ℕ → ℕ → M (List ℕ × Option ℕ)
  rb_insert cmp t x = if elem x t then fail corrupt else pure (v.rb_insert cmp t x)

  unfoldable pub rb_remove : List ℕ → ℕ → M (List ℕ)
  rb_remove t x = if elem x t then pure (v.rb_remove t x) else fail corrupt

  -- What the laws make of them.
  pub tailq_insert_tail_lem :
      (q : List ℕ) (x : ℕ)
      → tailq_insert_tail q x ≡ (if elem x q then fail corrupt else pure (q ++ x ∷ []))
  unfolding tailq_insert_tail
  tailq_insert_tail_lem q x = elim (Bool-cases (elem x q)) [
    | inl linked ↦ rw linked
    | inr out ↦ rw (out, v.insert_tail_lem q x out)
  ]

  pub tailq_remove_lem :
      (q : List ℕ) (x : ℕ)
      → tailq_remove q x ≡ (if elem x q then pure (erase x q) else fail corrupt)
  unfolding tailq_remove
  tailq_remove_lem q x = elim (Bool-cases (elem x q)) [
    | inl linked ↦ rw (linked, v.remove_lem q x linked)
    | inr out ↦ rw out
  ]

  pub rb_remove-eq_ite :
      (t : List ℕ) (x : ℕ) → rb_remove t x ≡ (if elem x t then pure (erase x t) else fail corrupt)
  unfolding rb_remove
  rb_remove-eq_ite t x = elim (Bool-cases (elem x t)) [
    | inl linked ↦ rw (linked, v.rb_remove_lem t x linked)
    | inr out ↦ rw out
  ]
