-- ===== src/Scheduler/Sleep/Insert.antt =====
-- scheduler_addsleep puts a PROC to sleep until the first free time from its own on.
use libproxc.Base.{
  ℕ, zero, suc, ◌+◌, ◌-◌, ◌^◌, ◌≤◌, ◌<◌, ◌≡◌, refl, sym, ◌∙◌, ap, true, false, none, some, arith,
  ◌==◌, ==_refl, elem, update, is_some, lt→ltb, some_of_is_some,
}
use mathlib.Core.Path.{subst}
use libproxc.Platform.{Platform, find_key, insert_sorted, sorted_by}
use libproxc.Platform.Keys.{find_key-congr, sorted_by-congr, sorted_by-insert_sorted}
use libproxc.Store.{State, Proc, ProcState, ret}
use libproxc.Scheduler.Sleep.{u64, max_tries, sleep_us_at, addsleep_loop, scheduler_addsleep}
use libproxc.Scheduler.Sleep.Tries.{
  with_sleep, with_us, later, own_time, key-same, addsleep_loop-free, addsleep_loop-taken,
}

-- `s'` is `s` with the PROC at `p` being `proc`, and asleep in the tree at the place of its time.
pub record Slept (s s' : State) (p : ℕ) (proc : Proc) : Type 0 where
  pub at : s'.procs p ≡ some proc
  pub same : (q : ℕ) → (p == q) ≡ false → s'.procs q ≡ s.procs q
  pub tree : s'.sched.sleep_rb ≡ insert_sorted (sleep_us_at s') p s.sched.sleep_rb
  pub sorted : sorted_by (sleep_us_at s') s'.sched.sleep_rb ≡ true
  pub rest : s' ≡ record (with_sleep s s'.sched.sleep_rb) { procs = s'.procs }

-- The store when scheduler_addsleep has counted the new sleeper.
abbrev pub counted : State → State
counted s = record s { sched = record s.sched { sleep_num = u64 (s.sched.sleep_num + 1) } }

abbrev pub asleep : Proc → Proc
asleep proc = record proc { state = ProcState.sleeping }

module _ ⦃v : Platform⦄ where
  shift : (k i : ℕ) → k + suc i < 2 ^ 64 → k + suc i ≡ u64 (k + 1) + i
  shift k i h = omega arith

  zero_on : (n : ℕ) → n ≡ n + 0
  zero_on n = omega arith

  Slept-free :
      (s : State) (p : ℕ) {proc : Proc}
      → s.procs p ≡ some proc
      → sorted_by (sleep_us_at s) s.sched.sleep_rb ≡ true
      → find_key (sleep_us_at s) (sleep_us_at s p) s.sched.sleep_rb ≡ none
      → Slept s (with_sleep s (insert_sorted (sleep_us_at s) p s.sched.sleep_rb)) p proc
  Slept-free s p at sorted free = record {
    at = at;
    same = λ q ne. refl;
    tree = refl;
    sorted = sorted_by-insert_sorted (sleep_us_at s) p s.sched.sleep_rb free sorted;
    rest = refl;
  }

  Slept-after :
      {s s' : State} {p : ℕ} (a : Proc) {b : Proc}
      → Slept (record s { procs = update s.procs p (some a) }) s' p b
      → Slept s s' p b
  Slept-after a h = record {
    at = h.at;
    same = λ q ne. h.same q ne ∙ rw ne;
    tree = h.tree;
    sorted = h.sorted;
    rest = h.rest;
  }

  -- The times from that of the PROC on that are taken, `j` of them, are passed over.
  addsleep_loop-Slept :
      (j left : ℕ) (s : State) (p : ℕ) {proc : Proc}
      → s.procs p ≡ some proc
      → elem p s.sched.sleep_rb ≡ false
      → sorted_by (sleep_us_at s) s.sched.sleep_rb ≡ true
      → ((i : ℕ)
          → i < j
          → is_some (find_key (sleep_us_at s) (proc.sleep_us + i) s.sched.sleep_rb) ≡ true)
      → find_key (sleep_us_at s) (proc.sleep_us + j) s.sched.sleep_rb ≡ none
      → j ≤ left
      → proc.sleep_us + j < 2 ^ 64
      → (s' : State) × (addsleep_loop left p s ≡ ret (max_tries - (left - j)) s')
        × Slept s s' p (with_us proc (proc.sleep_us + j))
  addsleep_loop-Slept zero left s p {proc} at out sorted taken free room small =
      let own : sleep_us_at s p ≡ proc.sleep_us + 0 = own_time s p at ∙ zero_on proc.sleep_us in
      let none_at =
        subst (λ k. find_key (sleep_us_at s) k s.sched.sleep_rb ≡ none) (sym own) free in
      let t : State = with_sleep s (insert_sorted (sleep_us_at s) p s.sched.sleep_rb) in
      (
        t,
        addsleep_loop-free left s p out sorted none_at
            ∙ ap (λ (n : ℕ). ret (max_tries - n) t) (omega arith),
        subst (λ k. Slept s t p (with_us proc k)) (omega arith) (Slept-free s p at sorted none_at),
      )
  addsleep_loop-Slept (suc j) zero s p at out sorted taken free room small = absurd (omega arith)
  addsleep_loop-Slept (suc j) (suc left) s p {proc} at out sorted taken free room small =
      let own : sleep_us_at s p ≡ proc.sleep_us + 0 = own_time s p at ∙ zero_on proc.sleep_us in
      let next : State = later s p proc in
      let up : u64 (proc.sleep_us + 1) ≡ proc.sleep_us + 1 = omega arith in
      let key = λ (y : ℕ) (m : elem y s.sched.sleep_rb ≡ true).
        key-same s p (with_us proc (u64 (proc.sleep_us + 1))) y out m in
      let search =
        λ (k : ℕ). find_key-congr (sleep_us_at next) (sleep_us_at s) k s.sched.sleep_rb key in
      let (y, found) = some_of_is_some _ (taken 0 (omega arith)) in
      let clash : find_key (sleep_us_at s) (sleep_us_at s p) s.sched.sleep_rb ≡ some y =
        subst (λ k. find_key (sleep_us_at s) k s.sched.sleep_rb ≡ some y) (sym own) found in
      let (s', r, h) =
        addsleep_loop-Slept j left next p {proc = with_us proc (u64 (proc.sleep_us + 1))}
          (rw (==_refl p)) out
          (sorted_by-congr (sleep_us_at next) (sleep_us_at s) s.sched.sleep_rb key ∙ sorted)
          (λ i lt. rw (search (u64 (proc.sleep_us + 1) + i)) (
            subst (λ k. is_some (find_key (sleep_us_at s) k s.sched.sleep_rb) ≡ true)
              (shift proc.sleep_us i (omega arith)) (taken (suc i) (omega arith))))
          (search (u64 (proc.sleep_us + 1) + j)
            ∙ subst (λ k. find_key (sleep_us_at s) k s.sched.sleep_rb ≡ none)
                (shift proc.sleep_us j (omega arith)) free)
          (omega arith) (omega arith) in
      (
        s',
        addsleep_loop-taken left s p at out sorted clash
            ∙ r
            ∙ ap (λ (n : ℕ). ret (max_tries - n) s') (omega arith),
        subst (λ k. Slept s s' p (with_us proc k)) (omega arith)
            (Slept-after (with_us proc (u64 (proc.sleep_us + 1))) h),
      )

  addsleep-counted :
      (s s' : State) (p n : ℕ) {proc : Proc}
      → s.procs p ≡ some proc
      → (proc.sleep_us == 0) ≡ false
      → addsleep_loop max_tries p (record s { procs = update s.procs p (some (asleep proc)) })
        ≡ ret n s'
      → n < max_tries
      → scheduler_addsleep p s ≡ ret tt (counted s')
  unfolding scheduler_addsleep
  addsleep-counted s s' p n at set r few = rw (at, set, r, lt→ltb n max_tries few)

  -- A PROC with a wake-up time, not asleep yet. Of the times from its own on, the first `j` are taken
  -- by sleepers and the next one is free; j is below 1000, and the time does not pass the end of its
  -- 64 bits. Then the call does not fault; the PROC is asleep with that time, at its place in the
  -- tree, whose times still grow strictly, and the count of sleepers goes up.
  pub addsleep-Slept :
      (j : ℕ) (s : State) (p : ℕ) {proc : Proc}
      → s.procs p ≡ some proc
      → (proc.sleep_us == 0) ≡ false
      → elem p s.sched.sleep_rb ≡ false
      → sorted_by (sleep_us_at s) s.sched.sleep_rb ≡ true
      → ((i : ℕ)
          → i < j
          → is_some (find_key (sleep_us_at s) (proc.sleep_us + i) s.sched.sleep_rb) ≡ true)
      → find_key (sleep_us_at s) (proc.sleep_us + j) s.sched.sleep_rb ≡ none
      → j < max_tries
      → proc.sleep_us + j < 2 ^ 64
      → (s' : State) × (scheduler_addsleep p s ≡ ret tt (counted s'))
        × Slept s s' p (asleep (with_us proc (proc.sleep_us + j)))
  addsleep-Slept j s p {proc} at set out sorted taken free few small =
      let next : State = record s { procs = update s.procs p (some (asleep proc)) } in
      let key =
        λ (y : ℕ) (m : elem y s.sched.sleep_rb ≡ true). key-same s p (asleep proc) y out m in
      let search =
        λ (k : ℕ). find_key-congr (sleep_us_at next) (sleep_us_at s) k s.sched.sleep_rb key in
      let (s', r, h) =
        addsleep_loop-Slept j max_tries next p {proc = asleep proc} (rw (==_refl p)) out
          (sorted_by-congr (sleep_us_at next) (sleep_us_at s) s.sched.sleep_rb key ∙ sorted)
          (λ i lt. rw (search (proc.sleep_us + i)) (taken i lt)) (search (proc.sleep_us + j) ∙ free)
          (omega arith) small in
      (s', addsleep-counted s s' p _ at set r (omega arith), Slept-after (asleep proc) h)
