-- ===== src/Proxc/Sleeping.antt =====
-- SLEEP as a whole: proxc_sleep, the waking by _scheduler_wakeup, and the return.
use libproxc.Base.{
  ℕ, ◌+◌, ◌^◌, ◌<◌, ◌≡◌, ap, ◌∙◌, true, false, Option, none, some, List, arith, leb, ◌||◌, lt→ltb,
  ==_refl, elem, elem-append, update, is_some, length, All, All-elem,
}
use libproxc.Platform.{Platform, find_key, sorted_by}
use libproxc.Platform.Keys.{find_key-congr, sorted_by-congr, elem-insert_sorted}
use libproxc.Store.{State, Proc, M, ◌>>=◌, load_proc, put_proc, ret, yielded}
use libproxc.Scheduler.Queues.{proc_self}
use libproxc.Scheduler.Queues.Yield.{yield-from}
use libproxc.Scheduler.Sleep.{u64, max_tries, sleep_us_at, scheduler_addsleep}
use libproxc.Scheduler.Sleep.Tries.{with_us, own_time, key-same}
use libproxc.Scheduler.Sleep.Insert.{Slept, counted, asleep, addsleep-Slept}
use libproxc.Scheduler.Wakeup.{wakeup_procs}
use libproxc.Scheduler.Wakeup.Woken.{Sleeper}
use libproxc.Scheduler.Wakeup.Rounds.{wakeup-Woken}
use libproxc.Proxc.Control.{proxc_sleep}

-- The PROC that sleeps until `us`.
abbrev pub until : Proc → (us : ℕ) → Proc
until proc us = asleep (with_us proc us)

-- The times from `us` on that are taken in the tree of sleepers are `j`, and the next one is free.
pub record FreeAfter (key : ℕ → ℕ) (t : List ℕ) (us j : ℕ) : Type 0 where
  pub taken : (i : ℕ) → i < j → is_some (find_key key (us + i) t) ≡ true
  pub free : find_key key (us + j) t ≡ none

-- What is left of proxc_sleep when the PROC `p` is resumed.
abbrev pub slept_on : (p : ℕ) → M (Unit {0})
slept_on p = do proc ← load_proc p; put_proc p (some (record proc { sleep_us = 0 }))

module _ ⦃v : Platform⦄ where
  abbrev by_self : State → (p : ℕ) → State
  by_self s p = record s { sched = record s.sched { curr_proc = some p } }

  -- The store in which `p` has set its time.
  abbrev timed : State → (p : ℕ) → Proc → (us : ℕ) → State
  timed s p proc us = record s { procs = update s.procs p (some (with_us proc us)) }

  addsleep-timed :
      (j us p : ℕ) (s : State) {proc : Proc}
      → s.procs p ≡ some proc
      → 0 < us
      → elem p s.sched.sleep_rb ≡ false
      → sorted_by (sleep_us_at s) s.sched.sleep_rb ≡ true
      → FreeAfter (sleep_us_at s) s.sched.sleep_rb us j
      → j < max_tries
      → us + j < 2 ^ 64
      → (s' : State) × (scheduler_addsleep p (timed s p proc us) ≡ ret tt (counted s'))
        × Slept (timed s p proc us) s' p (until proc (us + j))
  addsleep-timed j us p s {proc} at set out sorted room few small =
      let s' : State = timed s p proc us in
      let key =
        λ (y : ℕ) (m : elem y s.sched.sleep_rb ≡ true). key-same s p (with_us proc us) y out m in
      let search =
        λ (k : ℕ). find_key-congr (sleep_us_at s') (sleep_us_at s) k s.sched.sleep_rb key in
      addsleep-Slept j s' p {proc = with_us proc us} (rw (==_refl p)) (ground (arith, set)) out
        (sorted_by-congr (sleep_us_at s') (sleep_us_at s) s.sched.sleep_rb key ∙ sorted)
        (λ i lt. rw (search (us + i)) (room.taken i lt)) (search (us + j) ∙ room.free) few small

  sleep-from :
      (usec now p : ℕ) (s s' : State) {proc : Proc}
      → s.procs p ≡ some proc
      → 0 < usec
      → now + usec < 2 ^ 64
      → scheduler_addsleep p (timed (by_self s p) p proc (now + usec)) ≡ ret tt s'
      → s'.sched.curr_proc ≡ some p
      → proxc_sleep usec now (by_self s p) ≡ yielded s' (slept_on p)
  unfolding proxc_sleep proc_self
  sleep-from usec now p s s' at some_time small runs curr =
      let wide : u64 (now + usec) ≡ now + usec = omega arith in
      rw (lt→ltb 0 usec some_time, at, wide, runs, yield-from s' curr)

  -- The PROC `p` runs and is not asleep; the times of the sleepers grow strictly; the first `j` times
  -- from `now + usec` on are taken, fewer than 1000, and the next, `now + usec + j`, is free and below
  -- 2^64; `usec` is not 0. Then SLEEP leaves `p` asleep until that time and yields. In every later store
  -- `s'` in which `p` sleeps until that time still, the sleepers are in order and counted, and no sleeper
  -- is ready, the loop of _scheduler_wakeup at time `t` does not fault, and puts `p` into the ready
  -- queue if and only if that time is not after `t`. Resumed in any store that has `p`, SLEEP returns.
  pub sleep-wakes :
      (j usec now t p : ℕ) (s s' s'' : State) {proc proc'' : Proc}
      → s.sched.curr_proc ≡ some p
      → s.procs p ≡ some proc
      → 0 < usec
      → elem p s.sched.sleep_rb ≡ false
      → sorted_by (sleep_us_at s) s.sched.sleep_rb ≡ true
      → FreeAfter (sleep_us_at s) s.sched.sleep_rb (now + usec) j
      → j < max_tries
      → now + usec + j < 2 ^ 64
      → s'.procs p ≡ some (until proc (now + usec + j))
      → elem p s'.sched.sleep_rb ≡ true
      → sorted_by (sleep_us_at s') s'.sched.sleep_rb ≡ true
      → s'.sched.sleep_num ≡ length s'.sched.sleep_rb
      → length s'.sched.sleep_rb < 2 ^ 64
      → All (Sleeper s') s'.sched.sleep_rb
      → s''.procs p ≡ some proc''
      → (asleep_in woken_in : State) × (proxc_sleep usec now s ≡ yielded asleep_in (slept_on p))
        × (asleep_in.procs p ≡ some (until proc (now + usec + j)))
        × (elem p asleep_in.sched.sleep_rb ≡ true)
        × (wakeup_procs t (length s'.sched.sleep_rb) s' ≡ ret tt woken_in)
        × (elem p woken_in.sched.ready_q ≡ leb (now + usec + j) t)
        × (slept_on p s''
            ≡ ret tt
                (record s'' { procs = update s''.procs p (some (record proc'' { sleep_us = 0 })) }))
  sleep-wakes j usec now t p s s' s'' {proc} curr at some_time out sorted room few small at' m'
        sorted' num' small' sleepers at'' =
      let e : s ≡ by_self s p =
        ap (λ (o : Option ℕ). record s { sched = record s.sched { curr_proc = o } }) curr in
      let (u, runs, h) =
        addsleep-timed j (now + usec) p (by_self s p) at (omega arith) out sorted room few small in
      let (w, ps, left, wakes, split, up, woken) = wakeup-Woken t s' sorted' num' small' sleepers in
      let sleeper = All-elem (Sleeper s') s'.sched.sleep_rb p sleepers m' in
      (
        counted u,
        w,
        ap (proxc_sleep usec now) e
            ∙ sleep-from usec now p s (counted u) at some_time (omega arith) runs
                (ap (λ (x : State). x.sched.curr_proc) h.rest),
        h.at,
        ap (elem p) h.tree
            ∙ elem-insert_sorted (sleep_us_at u) p p s.sched.sleep_rb
            ∙ rw (==_refl p),
        wakes,
        ap (elem p) woken.queued
            ∙ elem-append p s'.sched.ready_q ps
            ∙ ap (λ b. b || elem p ps) sleeper.out
            ∙ up p m'
            ∙ ap (λ k. leb k t) (own_time s' p at'),
        rw (at''),
      )
