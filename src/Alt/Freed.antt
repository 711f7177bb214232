-- ===== src/Alt/Freed.antt =====
-- Guards that are used after they have been freed.
use libproxc.Base.{
  ℕ, ◌+◌, ◌<◌, ◌≡◌, true, false, none, some, List, [], ◌∷◌, arith, elem, elem-append, update,
  ==_refl, leb, ◌==◌,
}
use libproxc.Platform.{Platform}
use libproxc.Store.{State, Guard, Alt, guard_time, ret, fault, dangling}
use libproxc.Alt.Guards.{
  alt_guardfree, cleanup_guards, alt_cleanup, alt_addguard, is_time, is_later,
}
use libproxc.Alt.Keys.{linked_alt, with_linked, link_guard_lem}
use libproxc.Alt.Select.{alt_enable}

-- alt_cleanup frees the first guard and then reads the link in it: with a guard in the queue, it
-- uses freed memory.
pub cleanup_dangling :
    (s : State) (a g : ℕ) {q : List ℕ} {alt : Alt} {guard : Guard}
    → s.alts a ≡ some alt
    → alt.guards_q ≡ g ∷ q
    → s.guards g ≡ some guard
    → alt_cleanup (some a) s ≡ fault dangling
unfolding alt_cleanup cleanup_guards alt_guardfree
cleanup_dangling s a g at q h = rw (at, q, h, ==_refl g)

later-eq_false : (a b : ℕ) → a < b → leb b a ≡ false
later-eq_false a b h = ground arith

module _ ⦃v : Platform⦄ where
  -- An alternation has a time guard, which is in its queue, and gets another one with an earlier time,
  -- which is not. The old one is freed, and is still in the queue, where alt_enable then uses it.
  pub addguard_earlier_frees :
      (s : State) (a g t : ℕ) {alt : Alt} {guard time : Guard}
      → s.alts a ≡ some alt
      → s.guards g ≡ some guard
      → guard.type ≡ guard_time
      → alt.guard_time ≡ some t
      → s.guards t ≡ some time
      → guard.usec < time.usec
      → (t == g) ≡ false
      → (g == t) ≡ false
      → elem t alt.guards_q ≡ true
      → elem g alt.guards_q ≡ false
      → (s' : State) × (alt' : Alt) × (alt_addguard a (some g) s ≡ ret tt s')
        × (s'.alts a ≡ some alt')
        × (elem t alt'.guards_q ≡ true)
        × (alt_enable t s' ≡ fault dangling)
  unfolding alt_addguard is_later alt_guardfree alt_enable
  addguard_earlier_frees s a g t {alt} {guard} {time} at h type has ht earlier ne ne' linked out =
      let one : Alt = record alt { key_count = alt.key_count + 1; guard_time = some t } in
      let two : Alt = record one { guard_time = some g } in
      let before : State = record s {
        alts = update (update s.alts a (some one)) a (some two);
        guards = update s.guards t none;
      } in
      let timed : is_time guard.type ≡ true = rw type in
      let link =
        link_guard_lem before a g alt.key_count {alt = two} {guard = guard} (rw (==_refl a))
          (rw (ne, h)) out in
      (
        with_linked before a g alt.key_count two guard,
        linked_alt g two,
        rw (at, h, timed, has, ht, later-eq_false guard.usec time.usec earlier, ht, ==_refl a) link,
        rw (==_refl a),
        rw (elem-append t alt.guards_q (g ∷ []), linked),
        rw (ne', ==_refl t),
      )
