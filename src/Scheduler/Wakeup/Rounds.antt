-- ===== src/Scheduler/Wakeup/Rounds.antt =====
-- The loop of _scheduler_wakeup over the sleeping PROCs: it ends, and makes ready those whose time is
-- up.
use libproxc.Base.{
  ℕ, zero, suc, ◌^◌, ◌<◌, ◌≡◌, refl, sym, ◌∙◌, ap, true, false, none, some, List, [], ◌∷◌, ◌++◌,
  append-nil, arith, ltb, leb, ==_refl, elem, ne_of_elem, distinct, length, head?, All, All-mono,
  Bool-cases, inl, inr,
}
use libproxc.Platform.{Platform, sorted_by}
use libproxc.Platform.Links.{rb_remove-eq_ite}
use libproxc.Store.{State, Proc, ret}
use libproxc.Scheduler.Queues.Fifo.{addready_lem}
use libproxc.Scheduler.Sleep.{dec64, sleep_us_at, scheduler_remsleep}
use libproxc.Scheduler.Wakeup.{wakeup_procs}
use libproxc.Scheduler.Wakeup.Due.{due, still, due-still, due-elem, sorted_by-distinct}
use libproxc.Scheduler.Wakeup.Woken.{
  Sleeper, Woken, unslept, next, next-key, Sleeper-next, Woken-next,
}

module _ ⦃v : Platform⦄ (now_us : ℕ) where
  remsleep_lem :
      (s : State) (p : ℕ) (t : List ℕ) {proc : Proc}
      → s.procs p ≡ some proc
      → s.sched.sleep_rb ≡ p ∷ t
      → scheduler_remsleep p s ≡ ret tt (unslept s t)
  unfolding scheduler_remsleep
  remsleep_lem s p t at tree = rw (at, rb_remove-eq_ite s.sched.sleep_rb p, tree, ==_refl p)

  wakeup_procs-next :
      (s : State) (n p : ℕ) (t : List ℕ) {proc : Proc}
      → s.procs p ≡ some proc
      → s.sched.sleep_rb ≡ p ∷ t
      → elem p s.sched.ready_q ≡ false
      → ltb now_us proc.sleep_us ≡ false
      → wakeup_procs now_us (suc n) s ≡ wakeup_procs now_us n (next s p proc t)
  unfolding wakeup_procs
  wakeup_procs-next s n p t at tree out up =
      let min : v.rb_min s.sched.sleep_rb ≡ some p =
        v.rb_min_lem s.sched.sleep_rb ∙ ap (λ (l : List ℕ). head? l) tree in
      rw (min, at, up, remsleep_lem s p t at tree, addready_lem (unslept s t) at out)

  wakeup_procs-empty :
      (s : State) (n : ℕ) → s.sched.sleep_rb ≡ [] → wakeup_procs now_us n s ≡ ret tt s
  unfolding wakeup_procs
  wakeup_procs-empty s zero tree =
      let min : v.rb_min s.sched.sleep_rb ≡ none =
        v.rb_min_lem s.sched.sleep_rb ∙ ap (λ (l : List ℕ). head? l) tree in
      rw min
  wakeup_procs-empty s (suc n) tree =
      let min : v.rb_min s.sched.sleep_rb ≡ none =
        v.rb_min_lem s.sched.sleep_rb ∙ ap (λ (l : List ℕ). head? l) tree in
      rw min

  wakeup_procs-early :
      (s : State) (n p : ℕ) (t : List ℕ) {proc : Proc}
      → s.procs p ≡ some proc
      → s.sched.sleep_rb ≡ p ∷ t
      → ltb now_us proc.sleep_us ≡ true
      → wakeup_procs now_us (suc n) s ≡ ret tt s
  unfolding wakeup_procs
  wakeup_procs-early s n p t at tree early =
      let min : v.rb_min s.sched.sleep_rb ≡ some p =
        v.rb_min_lem s.sched.sleep_rb ∙ ap (λ (l : List ℕ). head? l) tree in
      rw (min, at, early)

  Woken-none :
      (s : State) (t : List ℕ)
      → s.sched.sleep_rb ≡ t
      → s.sched.sleep_num ≡ length t
      → Woken s s [] t
  Woken-none s t tree num = record {
    tree = tree;
    num = num;
    queued = sym (append-nil s.sched.ready_q);
    procs = λ q. refl;
    rest = refl;
  }

  counts_down : (n num : ℕ) → num ≡ suc n → suc n < 2 ^ 64 → dec64 num ≡ n
  counts_down n num e h = omega (arith, e)

  own_key :
      (s : State) (p : ℕ) {proc : Proc} → s.procs p ≡ some proc → proc.sleep_us ≡ sleep_us_at s p
  own_key s p at = rw (at, sleep_us_at)

  wakeup_procs-Woken :
      (key : ℕ → ℕ) (t : List ℕ) (s : State)
      → s.sched.sleep_rb ≡ t
      → s.sched.sleep_num ≡ length t
      → length t < 2 ^ 64
      → distinct t ≡ true
      → All (Sleeper s) t
      → ((q : ℕ) → sleep_us_at s q ≡ key q)
      → (s' : State) × (wakeup_procs now_us (length t) s ≡ ret tt s')
        × Woken s s' (due key now_us t) (still key now_us t)
  wakeup_procs-Woken key [] s tree num small once sleepers same =
      (s, wakeup_procs-empty s 0 tree, Woken-none s [] tree num)
  wakeup_procs-Woken key (p ∷ t) s tree num small once (h, hs) same =
      let own : h.proc.sleep_us ≡ key p = own_key s p h.at ∙ same p in
      elim (Bool-cases (ltb now_us (key p))) [
        | inl early ↦ (
          s,
          wakeup_procs-early s (length t) p t h.at tree (rw own early),
          rw early (Woken-none s (p ∷ t) tree num),
        )
        | inr up ↦
            let (s', r, w) =
              wakeup_procs-Woken key t (next s p h.proc t) refl
                (counts_down (length t) s.sched.sleep_num num small) (omega arith) (ground arith)
                (All-mono t
                  (λ y m x. Sleeper-next s p h.proc t y (ne_of_elem p y t (ground arith) m) x) hs)
                (λ q. next-key s p h.proc t h.at q ∙ same q) in
            (
              s',
              wakeup_procs-next s (length t) p t h.at tree h.out (rw own up) ∙ r,
              rw up (Woken-next s s' p h.proc t (due key now_us t) (still key now_us t) h.at w),
            )
      ]

  -- PROCs sleep, in the order of their times, fewer than 2^64 and as many as the count says, and none
  -- of them is ready. The loop with a round for
  -- each of them does not fault and does not run out of rounds. It makes ready those whose time is
  -- not after now, in the order of their times, behind the PROCs that are ready already; the others
  -- sleep on, the count is theirs, and nothing else changes.
  pub wakeup-Woken :
      (s : State)
      → sorted_by (sleep_us_at s) s.sched.sleep_rb ≡ true
      → s.sched.sleep_num ≡ length s.sched.sleep_rb
      → length s.sched.sleep_rb < 2 ^ 64
      → All (Sleeper s) s.sched.sleep_rb
      → (s' : State) × (ps : List ℕ) × (left : List ℕ) × (wakeup_procs now_us
            (length s.sched.sleep_rb)
            s
          ≡ ret tt s')
        × (s.sched.sleep_rb ≡ ps ++ left)
        × ((q : ℕ) → elem q s.sched.sleep_rb ≡ true → elem q ps ≡ leb (sleep_us_at s q) now_us)
        × Woken s s' ps left
  wakeup-Woken s sorted num small sleepers =
      let key = sleep_us_at s in
      let t = s.sched.sleep_rb in
      let (s', r, w) =
        wakeup_procs-Woken key t s refl num small (sorted_by-distinct key t sorted) sleepers
          (λ q. refl) in
      (
        s',
        due key now_us t,
        still key now_us t,
        r,
        due-still now_us key t,
        (λ q m. due-elem now_us key q t sorted m),
        w,
      )
