-- ===== src/Scheduler/Sleep.antt =====
-- The trees of sleeping PROCs and of time guards, ordered by wake-up time: scheduler_addsleep,
-- scheduler_remsleep, scheduler_addaltsleep and scheduler_remaltsleep of scheduler.c. Two nodes may
-- not have one time: an insertion that meets its own time adds a microsecond and tries again.
pub mod Tries
pub mod Insert
use libproxc.Base.{
  ℕ, zero, suc, ◌+◌, ◌-◌, ◌%◌, ◌^◌, Option, none, some, ℤ, pos, negsuc, ltb, ◌==◌, if◌then◌else◌,
}
use libproxc.Platform.{Platform}
use libproxc.Platform.Links.{rb_insert, rb_remove}
use libproxc.Store.{
  assert_true, State, ProcState, M, pure, get, ◌>>=◌, ◌>>◌, deref, load_proc, put_proc, load_sched,
  put_sched, load_guard, put_guard, load_alt,
}

abbrev pub u64 : ℕ → ℕ
u64 n = n % 2 ^ 64

-- MAX_TRIES of both insertions
abbrev pub max_tries : ℕ
max_tries = 1000

-- The member that a comparison reads. The nodes of a tree are allocated; 0 stands in for others.
abbrev pub sleep_us_at : State → ℕ → ℕ
sleep_us_at s p = elim (s.procs p) [ none ↦ 0 | some proc ↦ proc.sleep_us ]

abbrev pub usec_at : State → ℕ → ℕ
usec_at s g = elim (s.guards g) [ none ↦ 0 | some guard ↦ guard.usec ]

abbrev pub sleep_cmp : State → ℕ → ℕ → ℤ
sleep_cmp s p1 p2 =
    if ltb (sleep_us_at s p1) (sleep_us_at s p2)
    then negsuc 0
    else if sleep_us_at s p1 == sleep_us_at s p2
    then pos 0
    else pos 1

abbrev pub altsleep_cmp : State → ℕ → ℕ → ℤ
altsleep_cmp s g1 g2 =
    if ltb (usec_at s g1) (usec_at s g2)
    then negsuc 0
    else if usec_at s g1 == usec_at s g2
    then pos 0
    else pos 1

-- A counter of type size_t goes down.
abbrev pub dec64 : ℕ → ℕ
dec64 n = u64 (n + 2 ^ 64 - 1)

module _ ⦃v : Platform⦄ where
  -- RB_INSERT on the tree of the scheduler: the node that is in the way, if there is one.
  unfoldable pub insert_sleep : ℕ → M (Option ℕ)
  insert_sleep p = do
    s ← get
    (t, clash) ← rb_insert (sleep_cmp s) s.sched.sleep_rb p
    put_sched (record s.sched { sleep_rb = t })
    pure clash

  unfoldable pub insert_altsleep : ℕ → M (Option ℕ)
  insert_altsleep g = do
    s ← get
    (t, clash) ← rb_insert (altsleep_cmp s) s.sched.altsleep_rb g
    put_sched (record s.sched { altsleep_rb = t })
    pure clash

  -- The loop of scheduler_addsleep with `left` more tries allowed, `num_tries` being 1000 - left;
  -- the result is the last `num_tries`. The counter goes up after the test, so it ends at 1001 where
  -- all tries meet a clash.
  unfoldable pub addsleep_loop : (left : ℕ) → ℕ → M ℕ
  unfolding insert_sleep
  addsleep_loop zero p = do
    clash ← insert_sleep p
    elim clash [ none ↦ pure max_tries | some _ ↦ pure (max_tries + 1) ]
  addsleep_loop (suc left) p = do
    clash ← insert_sleep p
    elim clash [
      | none ↦ pure (max_tries - suc left)
      | some _ ↦ do
        proc ← load_proc p
        put_proc p (some (record proc { sleep_us = u64 (proc.sleep_us + 1) }))
        addsleep_loop left p
    ]

  unfoldable pub scheduler_addsleep : ℕ → M (Unit {0})
  unfolding addsleep_loop
  scheduler_addsleep p = do
    proc ← load_proc p
    if proc.sleep_us == 0 then pure tt else do
      put_proc p (some (record proc { state = ProcState.sleeping }))
      num_tries ← addsleep_loop max_tries p
      sched ← load_sched
      put_sched (record sched { sleep_num = u64 (sched.sleep_num + 1) })
      assert_true (ltb num_tries max_tries)

  unfoldable pub scheduler_remsleep : ℕ → M (Unit {0})
  scheduler_remsleep p = do
    load_proc p
    sched ← load_sched
    t ← rb_remove sched.sleep_rb p
    put_sched (record sched { sleep_rb = t; sleep_num = dec64 sched.sleep_num })

  -- The loop of scheduler_addaltsleep with `left` more increments of `num_tries` allowed. The counter
  -- goes up before the test, and the body is not run when it reaches 1000.
  unfoldable pub addaltsleep_loop : (left : ℕ) → ℕ → M ℕ
  unfolding insert_altsleep
  addaltsleep_loop zero g = pure max_tries
  addaltsleep_loop (suc left) g = do
    clash ← insert_altsleep g
    elim clash [
      | none ↦ pure (max_tries - suc left)
      | some _ ↦ if left == 0 then pure max_tries else do
        guard ← load_guard g
        put_guard g (some (record guard { usec = u64 (guard.usec + 1) }))
        addaltsleep_loop left g
    ]

  unfoldable pub scheduler_addaltsleep : ℕ → M (Unit {0})
  unfolding addaltsleep_loop
  scheduler_addaltsleep g = do
    guard ← load_guard g
    if guard.usec == 0 then pure tt else do
      a ← deref guard.alt
      alt ← load_alt a
      load_proc alt.proc
      num_tries ← addaltsleep_loop max_tries g
      assert_true (ltb num_tries max_tries)
      sched ← load_sched
      put_sched (record sched { altsleep_num = u64 (sched.altsleep_num + 1) })

  unfoldable pub scheduler_remaltsleep : ℕ → M (Unit {0})
  scheduler_remaltsleep g = do
    guard ← load_guard g
    a ← deref guard.alt
    alt ← load_alt a
    load_proc alt.proc
    sched ← load_sched
    t ← rb_remove sched.altsleep_rb g
    put_sched (record sched { altsleep_rb = t; altsleep_num = dec64 sched.altsleep_num })
