-- ===== src/Alt/Guards.antt =====
-- Guards and the alternation that holds them: alt_guardcreate, alt_guardfree, alt_init, alt_cleanup
-- and alt_addguard of alt.c. `mem` is what calloc returns, NULL being `none`.
use libproxc.Base.{
  ℕ, ◌+◌, Bool, true, false, not, Option, none, some, List, [], ◌∷◌, leb, if◌then◌else◌, pos,
  negsuc,
}
use libproxc.Platform.{Platform}
use libproxc.Platform.Links.{tailq_insert_tail}
use libproxc.Store.{
  GuardType, guard_skip, guard_time, guard_chan, ChanEndType, Guard, M, pure, ◌>>=◌, ◌>>◌,
  assert_notnull, load_guard, put_guard, load_alt, put_alt,
}
use libproxc.Scheduler.Queues.{proc_self}

-- A guard as calloc and the common members leave it.
abbrev pub blank_guard : GuardType → Guard
blank_guard type = record {
  type = type;
  key = negsuc 0;
  alt = none;
  usec = 0;
  chan = none;
  ch_end = record {
    type = ChanEndType.writer;
    data_ptr = 0;
    chan = none;
    proc = none;
    guard = none;
  };
  data_ptr = 0;
  data_size = 0;
  in_chan = false;
}

-- The address of the result is that of the memory given.
unfoldable pub alt_guardcreate :
    (mem : Option ℕ) → GuardType → (usec : ℕ) (chan : Option ℕ) (dat size : ℕ) → M (Option ℕ)
alt_guardcreate none type usec chan dat size = pure none
alt_guardcreate (some g) guard_skip usec chan dat size = do
  put_guard g (some (blank_guard guard_skip))
  pure (some g)
alt_guardcreate (some g) guard_time usec chan dat size = do
  put_guard g (some (record (blank_guard guard_time) { usec = usec }))
  pure (some g)
alt_guardcreate (some g) guard_chan usec chan dat size = do
  c ← assert_notnull chan
  put_guard g (
      some (record (blank_guard guard_chan) {
        chan = some c;
        ch_end = record {
          type = ChanEndType.alter;
          data_ptr = dat;
          chan = some c;
          proc = none;
          guard = some g;
        };
        data_ptr = dat;
        data_size = size;
        in_chan = false;
      }))
  pure (some g)

-- free(NULL) does nothing; a second free of one guard is a fault.
unfoldable pub alt_guardfree : Option ℕ → M (Unit {0})
alt_guardfree none = pure tt
alt_guardfree (some g) = do load_guard g; put_guard g none

unfoldable pub alt_init : (alt : ℕ) → M (Unit {0})
alt_init a = do
  self ← proc_self
  put_alt a (
      some (record {
        key_count = 0;
        is_accepted = false;
        winner = none;
        ready_num = 0;
        ready_guards = none;
        guards_num = 0;
        guards_q = [];
        guard_time = none;
        proc = self;
      }))

-- TAILQ_FOREACH reads the link of a guard after the loop's body has freed it.
unfoldable pub cleanup_guards : List ℕ → M (Unit {0})
unfolding alt_guardfree
cleanup_guards [] = pure tt
cleanup_guards (g ∷ gs) = do alt_guardfree (some g); load_guard g; cleanup_guards gs

unfoldable pub alt_cleanup : (alt : Option ℕ) → M (Unit {0})
unfolding cleanup_guards
alt_cleanup none = pure tt
alt_cleanup (some a) = do
  alt ← load_alt a
  cleanup_guards alt.guards_q
  put_alt a (some (record alt { ready_guards = none }))

abbrev pub is_time : GuardType → Bool
is_time guard_time = true
is_time _ = false

-- `if (guard_time && guard->usec >= guard_time->usec)`
unfoldable pub is_later : Option ℕ → Guard → M Bool
is_later none guard = pure false
is_later (some t) guard = do time ← load_guard t; pure (leb time.usec guard.usec)

module _ ⦃v : Platform⦄ where
  -- The last part of alt_addguard: the guard gets its key and is linked.
  unfoldable pub link_guard : (a g key : ℕ) → M (Unit {0})
  link_guard a g key = do
    alt ← load_alt a
    guard ← load_guard g
    put_guard g (
        some (record guard {
          key = pos key;
          alt = some a;
          ch_end = record guard.ch_end { proc = some alt.proc };
        }))
    q ← tailq_insert_tail alt.guards_q g
    put_alt a (some (record alt { guards_num = alt.guards_num + 1; guards_q = q }))

  unfoldable pub alt_addguard : (a : ℕ) → Option ℕ → M (Unit {0})
  unfolding link_guard is_later alt_guardfree
  alt_addguard a none = do
    alt ← load_alt a
    put_alt a (some (record alt { key_count = alt.key_count + 1 }))
  alt_addguard a (some g) = do
    alt ← load_alt a
    put_alt a (some (record alt { key_count = alt.key_count + 1 }))
    guard ← load_guard g
    if not (is_time guard.type) then link_guard a g alt.key_count else do
      later ← is_later alt.guard_time guard
      if later then pure tt else do
        alt_guardfree alt.guard_time
        alt' ← load_alt a
        put_alt a (some (record alt' { guard_time = some g }))
        link_guard a g alt.key_count
