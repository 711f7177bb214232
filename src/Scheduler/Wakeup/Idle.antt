-- ===== src/Scheduler/Wakeup/Idle.antt =====
-- _scheduler_checkQs does not sleep too long.
use libproxc.Base.{
  ℕ, ◌+◌, ◌^◌, ◌≤◌, ◌<◌, ◌≡◌, ◌⊎◌, refl, sym, ap, ◌∙◌, true, some, List, [], ◌∷◌, ◌||◌, arith, ltb,
  ◌==◌, ==_iff, lt→ltb, if◌then◌else◌, elem, head?, Bool-cases, Option-cases, inl, inr,
}
use libproxc.Platform.{Platform, above, sorted_by}
use libproxc.Store.{State, Guard}
use libproxc.Scheduler.Sleep.{sleep_us_at, usec_at}
use libproxc.Scheduler.Wakeup.{min_us, scheduler_check_qs}
use libproxc.Scheduler.Wakeup.Due.{above-elem}

-- The least of the times of a tree, 0 if it is empty.
abbrev first_time : (ℕ → ℕ) → List ℕ → ℕ
first_time key [] = 0
first_time key (p ∷ t) = key p

first_time-le :
    (key : ℕ → ℕ) (t : List ℕ) (q : ℕ)
    → sorted_by key t ≡ true
    → elem q t ≡ true
    → first_time key t ≤ key q
first_time-le key [] q sorted m = absurd (cc (m))
first_time-le key (p ∷ t) q sorted m = elim (Bool-cases (q == p)) [
  | inl here ↦ omega (arith, ap key ((==_iff q p).0 here))
  | inr ne ↦
      omega (arith, above-elem key (key p) q t (ground (arith, sorted)) (ground (arith, m, ne)))
]

-- The lesser of the times `a`, 0 standing for none, and the first of a tree.
abbrev least : (a : ℕ) → (ℕ → ℕ) → List ℕ → ℕ
least a key [] = a
least a key (g ∷ t) = if a == 0 || ltb (key g) a then key g else a

least-bounds :
    (now_us : ℕ) (ka kb : ℕ → ℕ) (ta tb : List ℕ) (q time : ℕ)
    → sorted_by ka ta ≡ true
    → sorted_by kb tb ≡ true
    → above ka now_us ta ≡ true
    → above kb now_us tb ≡ true
    → ((elem q ta ≡ true) × (time ≡ ka q)) ⊎ ((elem q tb ≡ true) × (time ≡ kb q))
    → (now_us < least (first_time ka ta) kb tb) × (least (first_time ka ta) kb tb ≤ time)
least-bounds now_us ka kb [] [] q time sa sb aa ab (inl (m, e)) = absurd (cc (m))
least-bounds now_us ka kb [] [] q time sa sb aa ab (inr (m, e)) = absurd (cc (m))
least-bounds now_us ka kb (p ∷ ta) [] q time sa sb aa ab (inl (m, e)) =
    (ground (arith, aa), omega (arith, e, first_time-le ka (p ∷ ta) q sa m))
least-bounds now_us ka kb (p ∷ ta) [] q time sa sb aa ab (inr (m, e)) = absurd (cc (m))
least-bounds now_us ka kb [] (g ∷ tb) q time sa sb aa ab (inl (m, e)) = absurd (cc (m))
least-bounds now_us ka kb [] (g ∷ tb) q time sa sb aa ab (inr (m, e)) =
    (ground (arith, ab), omega (arith, e, first_time-le kb (g ∷ tb) q sb m))
least-bounds now_us ka kb (p ∷ ta) (g ∷ tb) q time sa sb aa ab (inl (m, e)) =
    let le : ka p ≤ time = omega (arith, e, first_time-le ka (p ∷ ta) q sa m) in
    (ground (arith, aa, ab), ground (arith, aa, ab, le))
least-bounds now_us ka kb (p ∷ ta) (g ∷ tb) q time sa sb aa ab (inr (m, e)) =
    let le : kb g ≤ time = omega (arith, e, first_time-le kb (g ∷ tb) q sb m) in
    (ground (arith, aa, ab), ground (arith, aa, ab, le))

guard_at :
    (s : State) (now_us g : ℕ) (tb : List ℕ)
    → above (usec_at s) now_us (g ∷ tb) ≡ true
    → (guard : Guard) × (s.guards g ≡ some guard)
guard_at s now_us g tb a = elim (Option-cases (s.guards g)) [
  | inl e ↦
      let zero : usec_at s g ≡ 0 = rw (e, usec_at) in
      let later : ltb now_us (usec_at s g) ≡ true = ground (arith, a) in
      let bad : ltb now_us 0 ≡ true = sym (ap (ltb now_us) zero) ∙ later in
      absurd (ground (arith, bad))
  | inr held ↦ held
]

module _ ⦃v : Platform⦄ where
  rb_min-of : (t : List ℕ) {t' : List ℕ} → t ≡ t' → v.rb_min t ≡ head? t'
  rb_min-of t e = v.rb_min_lem t ∙ ap (λ (l : List ℕ). head? l) e

  pub min_us-least :
      (s : State) (now_us : ℕ) (ta tb : List ℕ)
      → s.sched.sleep_rb ≡ ta
      → s.sched.altsleep_rb ≡ tb
      → above (usec_at s) now_us tb ≡ true
      → min_us now_us s ≡ least (first_time (sleep_us_at s) ta) (usec_at s) tb
  unfolding min_us
  min_us-least s now_us [] [] e e' a =
      rw (rb_min-of s.sched.altsleep_rb e', rb_min-of s.sched.sleep_rb e, min_us)
  min_us-least s now_us (p ∷ ta) [] e e' a =
      rw (rb_min-of s.sched.altsleep_rb e', rb_min-of s.sched.sleep_rb e, min_us, sleep_us_at)
  min_us-least s now_us [] (g ∷ tb) e e' a =
      let (guard, at) = guard_at s now_us g tb a in
      rw (rb_min-of s.sched.altsleep_rb e', at, rb_min-of s.sched.sleep_rb e, min_us, usec_at)
  min_us-least s now_us (p ∷ ta) (g ∷ tb) e e' a =
      let (guard, at) = guard_at s now_us g tb a in
      rw (
        rb_min-of s.sched.altsleep_rb e',
        at,
        rb_min-of s.sched.sleep_rb e,
        min_us,
        usec_at,
        sleep_us_at,
      )

  check_qs-waits :
      (s : State) (now_us : ℕ)
      → s.sched.ready_q ≡ []
      → now_us < min_us now_us s
      → min_us now_us s < now_us + 2 ^ 32
      → now_us + scheduler_check_qs now_us s ≡ min_us now_us s
  unfolding scheduler_check_qs
  check_qs-waits s now_us empty later close =
      let some_time : ltb 0 (min_us now_us s) ≡ true = lt→ltb 0 (min_us now_us s) (omega arith) in
      rw (empty, some_time, lt→ltb now_us (min_us now_us s) later) (omega arith)

  -- No PROC is ready, the times of the two trees of sleepers grow strictly and all are after `now_us`.
  -- The node `q` of one of the trees, a PROC or a time guard, is to wake up at `time`, less than 2^32
  -- microseconds from now. Then _scheduler_checkQs sleeps, and not beyond `time`.
  pub check_qs-bounds :
      (s : State) (now_us q time : ℕ)
      → s.sched.ready_q ≡ []
      → sorted_by (sleep_us_at s) s.sched.sleep_rb ≡ true
      → sorted_by (usec_at s) s.sched.altsleep_rb ≡ true
      → above (sleep_us_at s) now_us s.sched.sleep_rb ≡ true
      → above (usec_at s) now_us s.sched.altsleep_rb ≡ true
      → ((elem q s.sched.sleep_rb ≡ true) × (time ≡ sleep_us_at s q))
        ⊎ ((elem q s.sched.altsleep_rb ≡ true) × (time ≡ usec_at s q))
      → time < now_us + 2 ^ 32
      → (0 < scheduler_check_qs now_us s) × (now_us + scheduler_check_qs now_us s ≤ time)
  check_qs-bounds s now_us q time empty sa sb aa ab asleep close =
      let least_is = min_us-least s now_us s.sched.sleep_rb s.sched.altsleep_rb refl refl ab in
      let (later, le) =
        least-bounds now_us (sleep_us_at s) (usec_at s) s.sched.sleep_rb s.sched.altsleep_rb q time
          sa sb aa ab asleep in
      let waits =
        check_qs-waits s now_us empty (omega (arith, least_is, later))
          (omega (arith, least_is, le, close)) in
      (omega (arith, waits, least_is, later), omega (arith, waits, least_is, le))
