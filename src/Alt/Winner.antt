-- ===== src/Alt/Winner.antt =====
-- Which guard wins: alt_accept and alt_choose.
use libproxc.Base.{
  ℕ, zero, suc, ◌%◌, ◌<◌, ◌≡◌, refl, true, false, some, List, [], ◌∷◌, arith, elem, length,
  get_elem?, if◌then◌else◌, ltb, update, ==_refl, lt→ltb,
}
use libproxc.Store.{State, Guard, Alt, ret}
use libproxc.Alt.Accept.{alt_accept}
use libproxc.Alt.Select.{ready_guard, alt_choose}

-- The store after the alternation `a` has accepted the guard `g`.
abbrev pub accepted : State → (a g : ℕ) → Alt → State
accepted s a g alt = record s {
  alts = update s.alts a (some (record alt { is_accepted = true; winner = some g }));
}

accept-eq_ite :
    (s : State) {a : ℕ} {g : ℕ} {guard : Guard} {alt : Alt}
    → s.guards g ≡ some guard
    → guard.alt ≡ some a
    → s.alts a ≡ some alt
    → alt_accept g s ≡ (if alt.is_accepted then ret false s else ret true (accepted s a g alt))
unfolding alt_accept
accept-eq_ite s {alt} h m at = rw (h, m, at) (ground arith)

-- Two guards of one alternation that has accepted none: the one that asks first is accepted and is the
-- winner, the other is refused and changes nothing.
pub accept_once :
    (s : State) (g g' : ℕ) {a : ℕ} {guard guard' : Guard} {alt : Alt}
    → s.guards g ≡ some guard
    → guard.alt ≡ some a
    → s.guards g' ≡ some guard'
    → guard'.alt ≡ some a
    → s.alts a ≡ some alt
    → alt.is_accepted ≡ false
    → (s' : State) × (winner : Alt) × (alt_accept g s ≡ ret true s')
      × (s'.alts a ≡ some winner)
      × (winner.winner ≡ some g)
      × (alt_accept g' s' ≡ ret false s')
accept_once s g g' {a} {alt} h m h' m' at free = (
  accepted s a g alt,
  record alt { is_accepted = true; winner = some g },
  rw (accept-eq_ite s h m at, free),
  rw (==_refl a),
  refl,
  accept-eq_ite (accepted s a g alt) {alt = record alt { is_accepted = true; winner = some g }} h'
      m' (rw (==_refl a)),
)

get_elem?-elem :
    (xs : List ℕ) (i : ℕ) → i < length xs → (x : ℕ) × (get_elem? xs i ≡ some x) × (elem x xs ≡ true)
get_elem?-elem [] i h = absurd (omega arith)
get_elem?-elem (x ∷ xs) zero h = (x, refl, ground arith)
get_elem?-elem (x ∷ xs) (suc i) h =
    let (y, at, m) = get_elem?-elem xs i (omega arith) in (y, at, ground (arith, m))

mod_lt : (r n : ℕ) → 0 < n → r % n < n
mod_lt r n h = grind arith

index_lt : (rand n : ℕ) → 0 < n → (if ltb 1 n then rand % n else 0) < n
index_lt rand n h = ground (arith, mod_lt rand n)

-- Whatever rand() gives, an alternation with ready guards gets one of them as its winner, without
-- waiting; nothing else changes.
pub choose-elem_ready :
    (s : State) (rand a : ℕ) {alt : Alt} {gs : List ℕ}
    → s.alts a ≡ some alt
    → alt.ready_guards ≡ some gs
    → alt.ready_num ≡ length gs
    → 0 < length gs
    → (g : ℕ) × (alt_choose rand a s
        ≡ ret tt (record s { alts = update s.alts a (some (record alt { winner = some g })) }))
      × (elem g gs ≡ true)
unfolding alt_choose ready_guard
choose-elem_ready s rand a {alt} {gs} at ready num some_ready =
    let (g, found, m) =
      get_elem?-elem gs (if ltb 1 (length gs) then rand % length gs else 0)
        (index_lt rand (length gs) some_ready) in
    (g, rw (at, num, lt→ltb 0 (length gs) some_ready, ready, found), m)
