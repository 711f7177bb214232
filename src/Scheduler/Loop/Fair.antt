-- ===== src/Scheduler/Loop/Fair.antt =====
-- PROCs that go on yielding have their turns in the order of the ready queue.
use libproxc.Base.{ℕ, zero, suc, ◌≤◌, ◌≡◌, true, false, some, List, [], ◌∷◌, distinct, All}
use libproxc.Platform.{Platform}
use libproxc.Store.{State, Proc, M, yielded}
use libproxc.Scheduler.Loop.{Contexts, Tick, scheduler_running}

-- A PROC that has run before, with a stack below `bound`.
abbrev pub OldAt : (ℕ → Proc → Type 0) → State → ℕ → Type 0
OldAt P s p = (proc : Proc) × (s.procs p ≡ some proc) × P p proc

abbrev pub IsOld : (bound : ℕ) → ℕ → Proc → Type 0
IsOld bound p proc = (proc.ctx_fresh ≡ false) × (proc.stack_ptr ≤ bound)

-- In each round the stack pointer is in the stack and madvise does not fail.
abbrev pub AreGood : (bound : ℕ) → List Tick → Type 0
AreGood bound [] = Unit
AreGood bound (t ∷ ts) = (bound ≤ t.sp) × (t.madvise_ok ≡ true) × AreGood bound ts

-- The context of `p`, resumed whenever `p` is the running PROC, yields `n` times, one yield after the
-- other, without a change of the store.
abbrev pub YieldsFor : (p n : ℕ) → M (Unit {0}) → Type 0
YieldsFor p zero m = Unit
YieldsFor p (suc n) m =
    (k : M (Unit {0})) × ((t : State) → t.sched.curr_proc ≡ some p → m t ≡ yielded t k)
    × YieldsFor p n k

-- The scheduler runs on, no one sleeps, and `q` is the ready queue, whose PROCs yield `n` times.
pub record Turning (bound n : ℕ) (ctxs : Contexts) (s : State) (q : List ℕ) : Type 0 where
  pub goes : scheduler_running s.sched ≡ true
  pub none_sleeps : s.sched.sleep_rb ≡ []
  pub none_waits : s.sched.altsleep_rb ≡ []
  pub queue : s.sched.ready_q ≡ q
  pub once : distinct q ≡ true
  pub procs : All (OldAt (IsOld bound) s) q
  pub yields : All (λ p. YieldsFor p n (ctxs p)) q

module _ ⦃v : Platform⦄ (program : ℕ → M (Unit {0})) (fuel bound : ℕ) where
  -- The context that the first PROC saves in its round.
  abbrev next_ctx :
      {n p : ℕ} {ctxs : Contexts} {s : State} {q : List ℕ}
      → Turning bound (suc n) ctxs s (p ∷ q)
      → M (Unit {0})
  next_ctx h = h.yields.0.0
