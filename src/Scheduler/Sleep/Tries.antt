-- ===== src/Scheduler/Sleep/Tries.antt =====
-- One try of scheduler_addsleep: the time of the PROC is free, or it is taken.
use libproxc.Base.{
  ℕ, zero, suc, ◌+◌, ◌-◌, ◌≡◌, refl, true, false, none, some, List, ◌==◌, ==_iff, elem, update, inl,
  inr, Bool-cases,
}
use mathlib.Core.Path.{subst}
use libproxc.Platform.{Platform, find_key, insert_sorted, sorted_by}
use libproxc.Platform.Links.{rb_insert}
use libproxc.Store.{State, Proc, ret}
use libproxc.Scheduler.Sleep.{u64, max_tries, sleep_us_at, sleep_cmp, insert_sleep, addsleep_loop}

abbrev pub with_sleep : State → List ℕ → State
with_sleep s t = record s { sched = record s.sched { sleep_rb = t } }

abbrev pub with_us : Proc → ℕ → Proc
with_us proc k = record proc { sleep_us = k }

abbrev pub later : State → ℕ → Proc → State
later s p proc = record s {
  procs = update s.procs p (some (with_us proc (u64 (proc.sleep_us + 1))));
}

module _ ⦃v : Platform⦄ where
  module _ (s : State) (p : ℕ) (out : elem p s.sched.sleep_rb ≡ false)
      (sorted : sorted_by (sleep_us_at s) s.sched.sleep_rb ≡ true) where
    insert_sleep-free :
        find_key (sleep_us_at s) (sleep_us_at s p) s.sched.sleep_rb ≡ none
        → insert_sleep p s
          ≡ ret none (with_sleep s (insert_sorted (sleep_us_at s) p s.sched.sleep_rb))
    unfolding insert_sleep rb_insert
    insert_sleep-free free =
        let law =
          v.rb_insert_lem (sleep_cmp s) (sleep_us_at s) (λ a b. refl) s.sched.sleep_rb p out
            sorted in
        rw (out, law, free)

    insert_sleep-taken :
        {y : ℕ}
        → find_key (sleep_us_at s) (sleep_us_at s p) s.sched.sleep_rb ≡ some y
        → insert_sleep p s ≡ ret (some y) s
    unfolding insert_sleep rb_insert
    insert_sleep-taken taken =
        let law =
          v.rb_insert_lem (sleep_cmp s) (sleep_us_at s) (λ a b. refl) s.sched.sleep_rb p out
            sorted in
        rw (out, law, taken)

  pub own_time :
      (s : State) (p : ℕ) {proc : Proc} → s.procs p ≡ some proc → sleep_us_at s p ≡ proc.sleep_us
  own_time s p at = rw (at, sleep_us_at)

  -- Another member's time is not changed when `p` changes.
  pub key-same :
      (s : State) (p : ℕ) (proc : Proc) (y : ℕ)
      → elem p s.sched.sleep_rb ≡ false
      → elem y s.sched.sleep_rb ≡ true
      → sleep_us_at (record s { procs = update s.procs p (some proc) }) y ≡ sleep_us_at s y
  key-same s p proc y out m = elim (Bool-cases (p == y)) [
    | inl same ↦
        let eq : p ≡ y = (==_iff p y).0 same in
        absurd (cc (subst (λ x. elem x s.sched.sleep_rb ≡ false) eq out))
    | inr other ↦ rw (other, sleep_us_at)
  ]

  pub addsleep_loop-free :
      (left : ℕ) (s : State) (p : ℕ)
      → elem p s.sched.sleep_rb ≡ false
      → sorted_by (sleep_us_at s) s.sched.sleep_rb ≡ true
      → find_key (sleep_us_at s) (sleep_us_at s p) s.sched.sleep_rb ≡ none
      → addsleep_loop left p s
        ≡ ret (max_tries - left) (with_sleep s (insert_sorted (sleep_us_at s) p s.sched.sleep_rb))
  unfolding addsleep_loop
  addsleep_loop-free zero s p out sorted free = rw (insert_sleep-free s p out sorted free)
  addsleep_loop-free (suc left) s p out sorted free = rw (insert_sleep-free s p out sorted free)

  pub addsleep_loop-taken :
      (left : ℕ) (s : State) (p : ℕ) {proc : Proc} {y : ℕ}
      → s.procs p ≡ some proc
      → elem p s.sched.sleep_rb ≡ false
      → sorted_by (sleep_us_at s) s.sched.sleep_rb ≡ true
      → find_key (sleep_us_at s) (sleep_us_at s p) s.sched.sleep_rb ≡ some y
      → addsleep_loop (suc left) p s ≡ addsleep_loop left p (later s p proc)
  unfolding addsleep_loop
  addsleep_loop-taken left s p at out sorted taken =
      rw (insert_sleep-taken s p out sorted taken, at)
