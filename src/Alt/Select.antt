-- ===== src/Alt/Select.antt =====
-- alt_enable, alt_disable, alt_complete, alt_choose and alt_select of alt.c.
use libproxc.Base.{
  ℕ, ◌+◌, ◌%◌, Bool, true, false, not, ◌&&◌, some, List, [], ◌∷◌, ◌++◌, ltb, if◌then◌else◌, ℤ,
  get_elem?,
}
use mathlib.Core.List.{reverse}
use libproxc.Platform.{Platform}
use libproxc.Store.{
  panic, ProcState, GuardType, guard_skip, guard_time, guard_chan, Guard, Alt, M, pure, ◌>>=◌, ◌>>◌,
  assert_notnull, deref, load_guard, put_guard, load_alt, put_alt, load_proc, put_proc,
}
use libproxc.Scheduler.Queues.{proc_yield}
use libproxc.Scheduler.Sleep.{scheduler_addaltsleep, scheduler_remaltsleep}
use libproxc.Chan.Ops.{chan_altenable, chan_altdisable, chan_altread}

abbrev pub is_chan : GuardType → Bool
is_chan guard_chan = true
is_chan _ = false

-- The i-th entry of the array of ready guards.
unfoldable pub ready_guard : Alt → ℕ → M ℕ
ready_guard alt i = do guards ← deref alt.ready_guards; deref (get_elem? guards i)

-- `rand` is what rand() returns.
unfoldable pub alt_choose : (rand a : ℕ) → M (Unit {0})
unfolding ready_guard
alt_choose rand a = do
  alt ← load_alt a
  if ltb 0 alt.ready_num
      then (do
        g ← ready_guard alt (if ltb 1 alt.ready_num then rand % alt.ready_num else 0)
        put_alt a (some (record alt { winner = some g })))
      else if alt.is_accepted
      then pure tt
      else do
        proc ← load_proc alt.proc
        put_proc alt.proc (some (record proc { state = ProcState.altwait }))
        proc_yield

module _ ⦃v : Platform⦄ where
  -- The cases of alt_enable. true: the guard is ready.
  unfoldable pub enable_as : GuardType → Guard → (g : ℕ) → M Bool
  enable_as guard_skip guard g = pure true
  enable_as guard_time guard g = do scheduler_addaltsleep g; pure false
  enable_as guard_chan guard g = do
    c ← deref guard.chan
    ready ← chan_altenable c g
    if ready then pure true else do
      guard' ← load_guard g
      put_guard g (some (record guard' { in_chan = true }))
      pure false

  unfoldable pub alt_enable : ℕ → M Bool
  unfolding enable_as
  alt_enable g = do guard ← load_guard g; enable_as guard.type guard g

  unfoldable pub disable_as : GuardType → Guard → (g : ℕ) → M (Unit {0})
  disable_as guard_skip guard g = pure tt
  disable_as guard_time guard g = scheduler_remaltsleep g
  disable_as guard_chan guard g =
      if guard.in_chan then (do c ← deref guard.chan; chan_altdisable c g) else pure tt

  unfoldable pub alt_disable : ℕ → M (Unit {0})
  unfolding disable_as
  alt_disable g = do guard ← load_guard g; disable_as guard.type guard g

  unfoldable pub alt_complete : (a g : ℕ) → M (Unit {0})
  alt_complete a g = do
    guard ← load_guard g
    (if is_chan guard.type && not guard.in_chan
        then (do c ← deref guard.chan; chan_altread c g guard.data_size)
        else pure tt)
    alt ← load_alt a
    if ltb 0 alt.ready_num then proc_yield else pure tt

  -- The loop over the guards that enables them and collects the ready ones.
  unfoldable pub enable_guards : (a : ℕ) → List ℕ → M (Unit {0})
  unfolding alt_enable
  enable_guards a [] = pure tt
  enable_guards a (g ∷ gs) = do
    ready ← alt_enable g
    (if ready
        then (do
          alt ← load_alt a
          guards ← deref alt.ready_guards
          put_alt a (
              some (record alt {
                ready_num = alt.ready_num + 1;
                ready_guards = some (guards ++ g ∷ []);
              })))
        else pure tt)
    enable_guards a gs

  unfoldable pub disable_guards : List ℕ → M (Unit {0})
  unfolding alt_disable
  disable_guards [] = pure tt
  disable_guards (g ∷ gs) = do alt_disable g; disable_guards gs

  -- `mem` tells whether malloc gives the array of ready guards.
  unfoldable pub alt_select : (mem : Bool) (rand a : ℕ) → M ℤ
  unfolding enable_guards alt_choose disable_guards alt_complete
  alt_select mem rand a = do
    alt ← load_alt a
    if not mem then panic else do
      put_alt a (some (record alt { ready_num = 0; ready_guards = some [] }))
      enable_guards a alt.guards_q
      alt_choose rand a
      chosen ← load_alt a
      winner ← assert_notnull chosen.winner
      disable_guards (reverse chosen.guards_q)
      alt_complete a winner
      final ← load_alt a
      last ← deref final.winner
      guard ← load_guard last
      pure guard.key
