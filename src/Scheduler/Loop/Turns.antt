-- ===== src/Scheduler/Loop/Turns.antt =====
-- A round of scheduler_run in which a PROC runs and yields.
use libproxc.Base.{
  ℕ, ◌≡◌, ◌∙◌, refl, true, false, none, some, List, [], ◌∷◌, ◌++◌, ltb, ==_refl, elem, update,
  Bool-cases, inl, inr,
}
use libproxc.Platform.{Platform}
use libproxc.Platform.Links.{tailq_remove_lem}
use libproxc.Store.{State, Proc, ProcState, ret, yielded, M}
use libproxc.Context.{used_stack, gives_back, ctx_madvise}
use libproxc.Scheduler.Queues.{scheduler_addready}
use libproxc.Scheduler.Queues.Fifo.{readied, addready_lem}
use libproxc.Scheduler.Wakeup.{scheduler_wakeup}
use libproxc.Scheduler.Loop.{
  Contexts, Tick, ran, next_ready, enter, begin_turn, after_switch, finish_turn,
}

-- The PROC as it runs: it has a context.
abbrev pub entered : Proc → Proc
entered proc = record proc { state = ProcState.running; ctx_fresh = false }

-- The store while the PROC `p`, taken off the front of the ready queue, runs.
abbrev pub running : State → (p : ℕ) → Proc → List ℕ → State
running s p proc q = record s {
  procs =
      update (update s.procs p (some (record proc { state = ProcState.running }))) p
        (some (entered proc));
  sched = record s.sched { ready_q = q; curr_proc = some p };
}

-- The PROC when it has come back with its stack pointer at `sp`.
abbrev pub measured : Proc → (sp : ℕ) → Proc
measured proc sp = record proc { stack_used = used_stack proc.stack_ptr proc.stack_size sp }

madvise_lem :
    (s : State) (sp p : ℕ) {proc : Proc}
    → s.procs p ≡ some proc
    → ltb sp proc.stack_ptr ≡ false
    → ctx_madvise sp true p s
      ≡ ret tt (record s { procs = update s.procs p (some (measured proc sp)) })
unfolding ctx_madvise
madvise_lem s sp p {proc} at above =
    elim (Bool-cases (
      gives_back s.sched.page_size (used_stack proc.stack_ptr proc.stack_size sp)
        proc.stack_used)) [ inl gives ↦ rw (at, above, gives) | inr keeps ↦ rw (at, above, keeps) ]

module _ ⦃v : Platform⦄ where
  pub wakeup-none :
      (s : State) (now_us : ℕ)
      → s.sched.sleep_rb ≡ []
      → s.sched.altsleep_rb ≡ []
      → scheduler_wakeup now_us s ≡ ret tt s
  unfolding scheduler_wakeup
  wakeup-none s now_us none_sleeps none_waits = rw (none_sleeps, none_waits)

  pub next_ready_lem :
      (s : State) (now_us p : ℕ) (q : List ℕ) {proc : Proc}
      → scheduler_wakeup now_us s ≡ ret tt s
      → s.sched.ready_q ≡ p ∷ q
      → s.procs p ≡ some proc
      → next_ready now_us s
        ≡ ret (some p) (record s {
          procs = update s.procs p (some (record proc { state = ProcState.running }));
          sched = record s.sched { ready_q = q; curr_proc = some p };
        })
  unfolding next_ready
  next_ready_lem s now_us p q woken ready at =
      rw (woken, ready, tailq_remove_lem (p ∷ q) p, ==_refl p, at)

  enter_lem :
      (program : ℕ → M (Unit {0})) (ctxs : Contexts) (s : State) (p : ℕ) {proc : Proc}
      → s.procs p ≡ some proc
      → proc.ctx_fresh ≡ false
      → enter program ctxs p s
        ≡ ctxs p (record s { procs = update s.procs p (some (record proc { ctx_fresh = false })) })
  unfolding enter
  enter_lem program ctxs s p at old = rw (at, old)

  after_switch-running :
      (fuel : ℕ) (state : ProcState) (p : ℕ) (s : State)
      → state ≡ ProcState.running
      → after_switch fuel state p s ≡ scheduler_addready p s
  unfolding after_switch
  after_switch-running fuel state p s e = rw e

  after_switch-waiting :
      (fuel : ℕ) (state : ProcState) (p : ℕ) (s : State)
      → state ≡ ProcState.chanwait
      → after_switch fuel state p s ≡ ret tt s
  unfolding after_switch
  after_switch-waiting fuel state p s e = rw e

  module _ (s : State) (fuel p : ℕ) (tick : Tick) {proc : Proc} (ok : tick.madvise_ok ≡ true)
      (at : s.procs p ≡ some proc) (above : ltb tick.sp proc.stack_ptr ≡ false) where
    -- The store when the stack has been measured.
    abbrev pub after_madvise : State
    after_madvise = record s { procs = update s.procs p (some (measured proc tick.sp)) }

    pub finish-after :
        (s' : State)
        → after_switch fuel proc.state p after_madvise ≡ ret tt s'
        → finish_turn fuel tick p s
          ≡ ret tt (record s' { sched = record s'.sched { curr_proc = none } })
    unfolding finish_turn
    finish-after s' back = rw (ok, madvise_lem s tick.sp p at above, ==_refl p, back)

    -- A PROC that has yielded becomes ready.
    pub finish-running :
        proc.state ≡ ProcState.running
        → elem p s.sched.ready_q ≡ false
        → let u : State = readied after_madvise p (measured proc tick.sp) in
          finish_turn fuel tick p s
          ≡ ret tt (record u { sched = record u.sched { curr_proc = none } })
    finish-running runs out = finish-after (readied after_madvise p (measured proc tick.sp)) (
        after_switch-running fuel proc.state p after_madvise runs
        ∙ addready_lem after_madvise {proc = measured proc tick.sp} (rw (==_refl p)) out)

    -- A PROC that waits at a channel is left alone.
    pub finish-waiting :
        proc.state ≡ ProcState.chanwait
        → finish_turn fuel tick p s
          ≡ ret tt (record after_madvise { sched = record s.sched { curr_proc = none } })
    finish-waiting waits =
        finish-after after_madvise (after_switch-waiting fuel proc.state p after_madvise waits)

  -- The store after a round of the PROC `p`, the queue behind it being `q`.
  abbrev pub after_turn : State → (p : ℕ) → Proc → List ℕ → (sp : ℕ) → State
  after_turn s p proc q sp =
      let s1 : State = running s p proc q in
      let m : Proc = measured (entered proc) sp in
      let u : State = readied (record s1 { procs = update s1.procs p (some m) }) p m in
      record u { sched = record u.sched { curr_proc = none } }

  pub begins-ran :
      (program : ℕ → M (Unit {0})) (ctxs : Contexts) (k : M (Unit {0})) (p : ℕ) (q : List ℕ)
      (now_us : ℕ) (s t : State) {proc : Proc}
      → s.sched.sleep_rb ≡ []
      → s.sched.altsleep_rb ≡ []
      → s.sched.ready_q ≡ p ∷ q
      → s.procs p ≡ some proc
      → proc.ctx_fresh ≡ false
      → ctxs p (running s p proc q) ≡ yielded t k
      → begin_turn program now_us ctxs s ≡ ran p t k
  unfolding begin_turn
  begins-ran program ctxs k p q now_us s t {proc} none_sleeps none_waits first at old yields =
      let woken = wakeup-none s now_us none_sleeps none_waits in
      let s0 : State = record s {
        procs = update s.procs p (some (record proc { state = ProcState.running }));
        sched = record s.sched { ready_q = q; curr_proc = some p };
      } in
      let enters : enter program ctxs p s0 ≡ yielded t k =
        enter_lem program ctxs s0 p {proc = record proc { state = ProcState.running }}
          (rw (==_refl p)) old
        ∙ yields in
      rw (next_ready_lem s now_us p q woken first at, enters, begin_turn)

  module _ (program : ℕ → M (Unit {0})) (ctxs : Contexts) (k : M (Unit {0})) (fuel p : ℕ)
      (q : List ℕ) (tick : Tick) (s : State) {proc : Proc} (none_sleeps : s.sched.sleep_rb ≡ [])
      (none_waits : s.sched.altsleep_rb ≡ []) (first : s.sched.ready_q ≡ p ∷ q)
      (once : elem p q ≡ false) (at : s.procs p ≡ some proc) (old : proc.ctx_fresh ≡ false)
      (yields : ctxs p (running s p proc q) ≡ yielded (running s p proc q) k)
      (above : ltb tick.sp proc.stack_ptr ≡ false) (ok : tick.madvise_ok ≡ true) where
    pub turn-begins : begin_turn program tick.now_us ctxs s ≡ ran p (running s p proc q) k
    turn-begins =
        begins-ran program ctxs k p q tick.now_us s (running s p proc q) none_sleeps none_waits
          first at old yields

    pub turn-finishes :
        finish_turn fuel tick p (running s p proc q) ≡ ret tt (after_turn s p proc q tick.sp)
    turn-finishes =
        finish-running (running s p proc q) fuel p tick {proc = entered proc} ok (rw (==_refl p))
          above refl once

    -- No one sleeps, the PROC `p` is first in the ready queue and stands in it once, and its saved
    -- context, resumed in the store where `p` runs, goes to the next yield without a change of it. A
    -- round of the loop, with a stack pointer in the stack and madvise not failing, runs `p`, and then
    -- puts it last into the queue, in state READY, behind all others; no PROC is left running.
    pub turn-last :
        (s1 s2 : State) × (begin_turn program tick.now_us ctxs s ≡ ran p s1 k)
        × (s1.sched.curr_proc ≡ some p)
        × (finish_turn fuel tick p s1 ≡ ret tt s2)
        × (s2.sched.ready_q ≡ q ++ p ∷ [])
        × (s2.sched.curr_proc ≡ none)
        × (s2.procs p ≡ some (record (measured (entered proc) tick.sp) { state = ProcState.ready }))
    turn-last = (
      running s p proc q,
      after_turn s p proc q tick.sp,
      turn-begins,
      refl,
      turn-finishes,
      refl,
      refl,
      rw (==_refl p),
    )
