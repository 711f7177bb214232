-- ===== src/Scheduler/Queues/Fifo.antt =====
-- scheduler_addready, as the store that it leaves: the PROC is last in the ready queue.
use libproxc.Base.{none}
use libproxc.Base.{ℕ, ◌≡◌, false, some, [], ◌∷◌, ◌++◌, arith, elem, update, if◌then◌else◌}
use libproxc.Platform.{Platform}
use libproxc.Platform.Links.{tailq_insert_tail_lem}
use libproxc.Store.{dangling, State, Proc, ProcState, ret, fault, corrupt}
use libproxc.Scheduler.Queues.{scheduler_addready}

-- The store after `p`, holding `proc`, has become ready.
abbrev pub readied : State → ℕ → Proc → State
readied s p proc = record s {
  procs = update s.procs p (some (record proc { state = ProcState.ready }));
  sched = record s.sched { ready_q = s.sched.ready_q ++ p ∷ [] };
}

module _ ⦃v : Platform⦄ where
  -- To make an allocated PROC ready is to put it behind the ready queue, in state READY, unless it is
  -- in the queue already, which corrupts the links.
  pub addready-eq_ite :
      (s : State) {p : ℕ} {proc : Proc}
      → s.procs p ≡ some proc
      → scheduler_addready p s
        ≡ (if elem p s.sched.ready_q then fault corrupt else ret tt (readied s p proc))
  unfolding scheduler_addready
  addready-eq_ite s {p} e = rw (e, tailq_insert_tail_lem s.sched.ready_q p) (ground arith)

  pub addready_lem :
      (s : State) {p : ℕ} {proc : Proc}
      → s.procs p ≡ some proc
      → elem p s.sched.ready_q ≡ false
      → scheduler_addready p s ≡ ret tt (readied s p proc)
  addready_lem s e out = rw (addready-eq_ite s e, out)

  pub addready_none :
      (s : State) (p : ℕ) → s.procs p ≡ none → scheduler_addready p s ≡ fault dangling
  unfolding scheduler_addready
  addready_none s p e = rw e
