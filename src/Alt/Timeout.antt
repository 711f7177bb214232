-- ===== src/Alt/Timeout.antt =====
-- A time guard whose time is up is taken off the tree of sleepers twice.
use libproxc.Base.{
  ℕ, ◌≡◌, refl, true, false, some, [], ◌∷◌, ◌++◌, arith, elem, erase, distinct, ==_refl,
  if◌then◌else◌, elem-erase_self,
}
use libproxc.Platform.{Platform}
use libproxc.Platform.Links.{rb_remove-eq_ite}
use libproxc.Store.{State, Proc, ProcState, Guard, Alt, guard_time, ret, fault, corrupt}
use libproxc.Scheduler.Queues.{scheduler_addready}
use libproxc.Scheduler.Queues.Fifo.{readied, addready_lem}
use libproxc.Scheduler.Sleep.{dec64, scheduler_remaltsleep}
use libproxc.Scheduler.Wakeup.{wakeup_guard}
use libproxc.Alt.Accept.{alt_accept}
use libproxc.Alt.Winner.{accepted}
use libproxc.Alt.Select.{alt_disable}

module _ ⦃v : Platform⦄ where
  -- The store after scheduler_remaltsleep.
  abbrev pub unslept : State → ℕ → State
  unslept s g = record s {
    sched = record s.sched {
      altsleep_rb = erase g s.sched.altsleep_rb;
      altsleep_num = dec64 s.sched.altsleep_num;
    };
  }

  module _ (s : State) (g : ℕ) {a : ℕ} {guard : Guard} {alt : Alt} {proc : Proc}
      (h : s.guards g ≡ some guard) (m : guard.alt ≡ some a) (at : s.alts a ≡ some alt)
      (pr : s.procs alt.proc ≡ some proc) where
    pub remaltsleep-eq_ite :
        scheduler_remaltsleep g s
        ≡ (if elem g s.sched.altsleep_rb then ret tt (unslept s g) else fault corrupt)
    unfolding scheduler_remaltsleep
    remaltsleep-eq_ite = rw (h, m, at, pr, rb_remove-eq_ite s.sched.altsleep_rb g) (ground arith)

  -- A time guard is in the tree once, and its alternation waits and has accepted no guard; the PROC of
  -- the alternation is not ready. When its
  -- time is up, the guard is taken off the tree, is the winner, and the PROC of the alternation is made
  -- ready. Then alt_disable, which alt_select calls for every guard, takes it off the tree again, where
  -- it no longer is.
  pub timeout-disable :
      (s : State) (g : ℕ) {a : ℕ} {guard : Guard} {alt : Alt} {proc : Proc}
      → s.guards g ≡ some guard
      → guard.type ≡ guard_time
      → guard.alt ≡ some a
      → s.alts a ≡ some alt
      → s.procs alt.proc ≡ some proc
      → elem g s.sched.altsleep_rb ≡ true
      → distinct s.sched.altsleep_rb ≡ true
      → proc.state ≡ ProcState.altwait
      → alt.is_accepted ≡ false
      → elem alt.proc s.sched.ready_q ≡ false
      → (s' : State) × (alt' : Alt) × (wakeup_guard g s ≡ ret tt s')
        × (s'.alts a ≡ some alt')
        × (alt'.winner ≡ some g)
        × (s'.sched.ready_q ≡ s.sched.ready_q ++ alt.proc ∷ [])
        × (alt_disable g s' ≡ fault corrupt)
  unfolding wakeup_guard alt_accept alt_disable
  timeout-disable s g {a} {guard} {alt} {proc} h type m at pr there once waits free out =
      let t : State = accepted (unslept s g) a g alt in
      let ready : scheduler_addready alt.proc t ≡ ret tt (readied t alt.proc proc) =
        addready_lem t pr out in
      let gone = remaltsleep-eq_ite s g h m at pr in
      let again =
        remaltsleep-eq_ite (readied t alt.proc proc) g {a = a} {guard = guard}
          {alt = record alt { is_accepted = true; winner = some g }}
          {proc = record proc { state = ProcState.ready }} h m (rw (==_refl a))
          (rw (==_refl alt.proc)) in
      (
        readied t alt.proc proc,
        record alt { is_accepted = true; winner = some g },
        rw (h, gone, there, m, at, pr, waits, h, m, at, free) ready,
        rw (==_refl a),
        refl,
        refl,
        rw (h, type, again, elem-erase_self g s.sched.altsleep_rb once),
      )
