-- ===== src/Chan/Copy.antt =====
-- _chan_copydata of chan.c: the sizes 1, 2, 4 and 8 are one load and one store, the others memcpy.
-- Memory is bytes, and words are little-endian, as on x86.
pub mod Bytes
use libproxc.Base.{ℕ, zero, suc, ◌+◌, ◌*◌, ◌/◌, ◌%◌, ◌==◌, if◌then◌else◌, update}
use libproxc.Platform.{Platform}

-- *(uintN_t *)a for a word of n bytes
unfoldable pub load_word : (ℕ → ℕ) → (n a : ℕ) → ℕ
load_word m zero a = 0
load_word m (suc n) a = m a + 256 * load_word m n (a + 1)

-- *(uintN_t *)a = w
unfoldable pub store_word : (ℕ → ℕ) → (n a w : ℕ) → ℕ → ℕ
store_word m zero a w = m
store_word m (suc n) a w = store_word (update m a (w % 256)) n (a + 1) (w / 256)

abbrev copy_word : (ℕ → ℕ) → (n dst src : ℕ) → ℕ → ℕ
copy_word m n dst src = store_word m n dst (load_word m n src)

module _ ⦃v : Platform⦄ where
  unfoldable pub chan_copydata : (ℕ → ℕ) → (dst src size : ℕ) → ℕ → ℕ
  chan_copydata m dst src size =
      if size == 0
      then m
      else if size == 1
      then copy_word m 1 dst src
      else if size == 2
      then copy_word m 2 dst src
      else if size == 4
      then copy_word m 4 dst src
      else if size == 8
      then copy_word m 8 dst src
      else v.memcpy m dst src size
