-- ===== src/Scheduler/Loop/Exit.antt =====
-- The end of the program: the round in which the main PROC comes back ended, and what follows.
use libproxc.Base.{
  ℕ, suc, ◌≡◌, refl, sym, ap, ◌∙◌, Bool, true, false, some, none, Option, List, [], ◌∷◌, ◌||◌,
  arith, ltb, ◌==◌, ==_refl, ==_iff, elem, erase, elem-erase_self, elem-erase_ne, elem-erase_of_not,
  distinct-erase, ne_of_elem, distinct, length, Bool-cases, inl, inr, update, All, All-mono,
}
use mathlib.Core.Path.{subst}
use libproxc.Platform.{Platform}
use libproxc.Store.{State, Proc, Builder, ProcState, M, ret}
use libproxc.Proc.Release.{released, proc_free-released}
use libproxc.Proc.Owned.{Owned}
use libproxc.Scheduler.Loop.{
  eq_option, Contexts, Tick, ran, after_switch, begin_turn, finish_turn, scheduler_running,
  scheduler_run, scheduler_free,
}
use libproxc.Scheduler.Loop.Turns.{measured, finish-after}
use libproxc.Scheduler.Loop.Emptied.{Releasable, Emptied, same_proc, scheduler_free-all}

or_true : (b : Bool) → (b || true) ≡ true
or_true b = ground arith

All-erase : (P : ℕ → Type 0) (p : ℕ) (q : List ℕ) → All P q → All P (erase p q)
All-erase P p [] w = tt
All-erase P p (x ∷ q) (h, w) = elim (Bool-cases (p == x)) [
  | inl here ↦ rw here w
  | inr other ↦ rw other (h, All-erase P p q w)
]

module _ (s1 s2 : State) (p : ℕ) (q : List ℕ) {main : Proc} (once : distinct q ≡ true)
    (at : s1.procs p ≡ some main) (no_build : main.proc_build ≡ none)
    (same : (a : ℕ) → (p == a) ≡ false → s2.procs a ≡ s1.procs a)
    (builds : s2.builds ≡ s1.builds) where
  Releasable-erase : All (Releasable s1) q → All (Releasable s2) (erase p q)
  Releasable-erase all =
      All-mono (erase p q)
        (λ x m w.
          let (proc, at_x, own) = w in
          (
            proc,
            same x (ne_of_elem p x (erase p q) (elem-erase_self p q once) m) ∙ at_x,
            subst (λ f. Owned f x proc.proc_build) (sym builds) own,
          ))
        (All-erase (Releasable s1) p q all)

  -- What empties the rest of the queue, after `p`, which has no builder, has been released.
  Emptied-erase :
      (s3 : State)
      → elem p q ≡ true
      → s2.procs p ≡ none
      → Emptied s2 s3 (erase p q)
      → Emptied s1 s3 q
  Emptied-erase s3 linked none_p h = record {
    empty = h.empty;
    gone = λ a m. elim (Bool-cases (p == a)) [
      | inl here ↦
          subst (λ b. s3.procs b ≡ none) ((==_iff p a).0 here)
            (h.kept p (elem-erase_self p q once) ∙ none_p)
      | inr other ↦ h.gone a (elem-erase_ne a p q (ground (arith, other)) ∙ m)
    ];
    kept = λ a m.
        h.kept a (elem-erase_of_not a p q m) ∙ same a (ground (arith, ne_of_elem a p q m linked));
    freed = λ a b x m at_x e. elim (Bool-cases (p == a)) [
      | inl here ↦
          let at_p : s1.procs p ≡ some x = ap s1.procs ((==_iff p a).0 here) ∙ at_x in
          let both : none ≡ some b = sym no_build ∙ same_proc at at_p ∙ e in absurd (cc (both))
      | inr other ↦
          h.freed a b x (elem-erase_ne a p q (ground (arith, other)) ∙ m) (same a other ∙ at_x) e
    ];
    unmade = λ b e. h.unmade b (ap (λ (f : ℕ → Option Builder). f b) builds ∙ e);
  }

module _ ⦃v : Platform⦄ where
  after_switch-ended :
      (fuel p : ℕ) (state : ProcState) (s : State) {proc : Proc}
      → state ≡ ProcState.ended
      → s.sched.curr_proc ≡ some p
      → s.sched.main_proc ≡ some p
      → s.procs p ≡ some proc
      → proc.proc_build ≡ none
      → elem p s.sched.total_q ≡ true
      → after_switch fuel state p s
        ≡ ret tt (released (record s { sched = record s.sched { is_exit = true } }) p)
  unfolding after_switch
  after_switch-ended fuel p state s {proc} e curr main at no_build linked =
      let s0 : State = record s { sched = record s.sched { is_exit = true } } in
      let same : eq_option s.sched.curr_proc s.sched.main_proc ≡ true =
        rw (curr, main, ==_refl p) in
      rw (after_switch, e, same, or_true s.sched.is_exit)
        (proc_free-released fuel p s0 {proc = proc} at no_build linked)

  scheduler_run-stops :
      (program : ℕ → M (Unit {0})) (fuel : ℕ) (ticks : List Tick) (ctxs : Contexts) (s : State)
      → s.sched.is_exit ≡ true
      → scheduler_run program fuel ticks ctxs s ≡ ret tt s
  unfolding scheduler_run scheduler_running
  scheduler_run-stops program fuel [] ctxs s e = rw e
  scheduler_run-stops program fuel (tick ∷ ticks) ctxs s e = rw e

  -- The main PROC, which has no builder, comes back ended from a round of the loop, with its stack
  -- pointer in the stack and madvise not failing; every PROC of the queue of all PROCs stands in it
  -- once, and has no builder or one of its own that GO has started. Then the loop ends after this round,
  -- whatever PROCs are still ready, and scheduler_free, on as many rounds as it is given PROCs, does not
  -- fault, and releases every PROC of the queue, with its builder, but the main PROC, which the round has
  -- released.
  pub main-ends :
      (program : ℕ → M (Unit {0})) (fuel p : ℕ) (tick : Tick) (ticks : List Tick) (ctxs : Contexts)
      (k : M (Unit {0})) (s s1 : State) {proc : Proc}
      → scheduler_running s.sched ≡ true
      → begin_turn program tick.now_us ctxs s ≡ ran p s1 k
      → s1.sched.curr_proc ≡ some p
      → s1.sched.main_proc ≡ some p
      → s1.procs p ≡ some proc
      → proc.state ≡ ProcState.ended
      → proc.proc_build ≡ none
      → ltb tick.sp proc.stack_ptr ≡ false
      → tick.madvise_ok ≡ true
      → elem p s1.sched.total_q ≡ true
      → distinct s1.sched.total_q ≡ true
      → All (Releasable s1) s1.sched.total_q
      → (s2 s3 : State) × (scheduler_run program (suc (suc fuel)) (tick ∷ ticks) ctxs s ≡ ret tt s2)
        × (s2.sched.total_q ≡ erase p s1.sched.total_q)
        × (scheduler_free (suc (suc fuel)) (length s2.sched.total_q) s2 ≡ ret tt s3)
        × Emptied s1 s3 s1.sched.total_q
  unfolding scheduler_run
  main-ends program fuel p tick ticks ctxs k s s1 {proc} goes begins curr main at ended no_build
        above ok linked once all =
      let q = s1.sched.total_q in
      let t : State = record s1 { procs = update s1.procs p (some (measured proc tick.sp)) } in
      let u : State = released (record t { sched = record t.sched { is_exit = true } }) p in
      let s2 : State = record u { sched = record u.sched { curr_proc = none } } in
      let finishes : finish_turn (suc (suc fuel)) tick p s1 ≡ ret tt s2 =
        finish-after s1 (suc (suc fuel)) p tick ok at above u (
          after_switch-ended (suc (suc fuel)) p proc.state t {proc = measured proc tick.sp} ended
            curr main (rw (==_refl p)) no_build linked) in
      let (s3, frees, empties) =
        scheduler_free-all fuel (length (erase p q)) (erase p q) s2 refl (distinct-erase p q once)
          (Releasable-erase s1 s2 p q once at no_build (λ a ne. rw ne) refl all) (omega arith) in
      (
        s2,
        s3,
        rw (goes, begins, finishes)
            (scheduler_run-stops program (suc (suc fuel)) ticks (update ctxs p k) s2 refl),
        refl,
        frees,
        Emptied-erase s1 s2 p q once at no_build (λ a ne. rw ne) refl s3 linked (rw (==_refl p))
            empties,
      )
