-- ===== src/Chan/Copy/Bytes.antt =====
-- _chan_copydata copies the bytes, whatever the size.
use libproxc.Base.{
  ◌∙◌, ℕ, zero, suc, ◌+◌, ◌-◌, ◌*◌, ◌/◌, ◌%◌, ◌≤◌, ◌<◌, ◌≡◌, ◌⊎◌, ◌&&◌, arith, ltb, leb, ◌==◌,
  if◌then◌else◌, update, inl, inr, Bool-cases,
}
use libproxc.Platform.{Platform}
use libproxc.Chan.Copy.{load_word, store_word, chan_copydata}

-- Memory holds bytes.
abbrev pub IsBytes : (ℕ → ℕ) → Type 0
IsBytes m = (a : ℕ) → m a < 256

-- Memory `m` with the `n` bytes of `m'` at `src` written at `dst`.
abbrev pub overwrite : (m m' : ℕ → ℕ) (dst src n : ℕ) → ℕ → ℕ
overwrite m m' dst src n a = if leb dst a && ltb a (dst + n) then m' (src + (a - dst)) else m a

overwrite-suc :
    (m m' : ℕ → ℕ) (dst src n a : ℕ)
    → overwrite (update m dst (m' src)) m' (dst + 1) (src + 1) n a
      ≡ overwrite m m' dst src (suc n) a
overwrite-suc m m' dst src n a = elim (Bool-cases (ltb dst a)) [
  | inl above ↦
      let e : src + 1 + (a - (dst + 1)) ≡ src + (a - dst) = ground arith in rw e (ground arith)
  | inr here ↦ elim (Bool-cases (dst == a)) [
    | inl at ↦ let e : src + (a - dst) ≡ src = ground arith in rw (e, at) (ground arith)
    | inr below ↦ ground arith
  ]
]

store_word-load_word :
    (m m' : ℕ → ℕ) (n dst src : ℕ)
    → IsBytes m'
    → (a : ℕ) → store_word m n dst (load_word m' n src) a ≡ overwrite m m' dst src n a
unfolding store_word load_word
store_word-load_word m m' zero dst src b a = ground arith
store_word-load_word m m' (suc n) dst src b a =
    let w = load_word m' n (src + 1) in
    let low : (m' src + 256 * w) % 256 ≡ m' src = omega (arith, b src) in
    let high : (m' src + 256 * w) / 256 ≡ w = omega (arith, b src) in
    rw (low, high)
      (store_word-load_word (update m dst (m' src)) m' n (dst + 1) (src + 1) b a
        ∙ overwrite-suc m m' dst src n a)

module _ ⦃v : Platform⦄ where
  -- Where memory holds bytes and the two places do not overlap, all sizes copy the bytes of the
  -- source over those of the destination, and change no other.
  pub copydata-overwrite :
      (m : ℕ → ℕ) (dst src size : ℕ)
      → IsBytes m
      → (dst + size ≤ src) ⊎ (src + size ≤ dst)
      → (a : ℕ) → chan_copydata m dst src size a ≡ overwrite m m dst src size a
  unfolding chan_copydata
  copydata-overwrite m dst src size b apart a = ground (
    arith,
    store_word-load_word m m 1 dst src b a,
    store_word-load_word m m 2 dst src b a,
    store_word-load_word m m 4 dst src b a,
    store_word-load_word m m 8 dst src b a,
    v.memcpy_lem m dst src size apart a,
  )
