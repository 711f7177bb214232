-- ===== src/Alt/Keys.antt =====
-- Keys: the guards of an alternation are numbered by their places among its arguments.
use libproxc.Base.{ℕ, ◌+◌, ◌≡◌, false, some, [], ◌∷◌, ◌++◌, elem, update, pos}
use libproxc.Platform.{Platform}
use libproxc.Platform.Links.{tailq_insert_tail_lem}
use libproxc.Store.{State, Guard, Alt, ret}
use libproxc.Alt.Guards.{link_guard}

-- The guard with its key and its alternation.
abbrev pub linked_guard : (a key : ℕ) → Alt → Guard → Guard
linked_guard a key alt guard = record guard {
  key = pos key;
  alt = some a;
  ch_end = record guard.ch_end { proc = some alt.proc };
}

abbrev pub linked_alt : (g : ℕ) → Alt → Alt
linked_alt g alt = record alt { guards_num = alt.guards_num + 1; guards_q = alt.guards_q ++ g ∷ [] }

abbrev pub with_linked : State → (a g key : ℕ) → Alt → Guard → State
with_linked s a g key alt guard = record s {
  guards = update s.guards g (some (linked_guard a key alt guard));
  alts = update s.alts a (some (linked_alt g alt));
}

module _ ⦃v : Platform⦄ where
  pub link_guard_lem :
      (s : State) (a g key : ℕ) {alt : Alt} {guard : Guard}
      → s.alts a ≡ some alt
      → s.guards g ≡ some guard
      → elem g alt.guards_q ≡ false
      → link_guard a g key s ≡ ret tt (with_linked s a g key alt guard)
  unfolding link_guard
  link_guard_lem s a g key {alt} at h out = rw (at, h, tailq_insert_tail_lem alt.guards_q g, out)
