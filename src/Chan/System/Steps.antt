-- ===== src/Chan/System/Steps.antt =====
-- Runs of the system: PROCs that read, write and yield, and the rounds of the scheduler between them,
-- in any order, on any number of channels.
use libproxc.Base.{
  ℕ, ◌≡◌, ◌⊎◌, sym, ap, ◌∙◌, refl, true, false, none, some, List, [], ◌∷◌, All, ltb, inl, inr,
  Option, update, ==_refl,
}
use mathlib.Core.Path.{subst}
use libproxc.Platform.{Platform}
use libproxc.Store.{State, Proc, ProcState, ChanEndType, Chan, Run, ret, fault, yielded}
use libproxc.Scheduler.Wakeup.{scheduler_wakeup}
use libproxc.Scheduler.Loop.{Tick, next_ready, finish_turn}
use libproxc.Scheduler.Loop.Turns.{measured, next_ready_lem, finish-running, finish-waiting}
use libproxc.Chan.Ops.{chan_create, chan_write, chan_read}
use libproxc.Chan.Ops.Open.{Caller}
use libproxc.Chan.Ops.Parts.{wait_rest}
use libproxc.Chan.System.{ReadyAt, InOrder, InOrder-Caller, out_of_ready, ChanInOrder-frame}
use libproxc.Chan.System.Moves.{by_chan}
use libproxc.Chan.System.Calls.{Keeps, chan_write-Keeps, chan_read-Keeps}
use libproxc.Chan.System.Rounds.{
  InOrder-dispatched, InOrder-touched, InOrder-readied, InOrder-with_curr, InOrder-unended,
}

-- The PROC `p` runs.
pub record Running (s : State) (p : ℕ) : Type 0 where
  pub proc : Proc
  pub current : s.sched.curr_proc ≡ some p
  pub at : s.procs p ≡ some proc
  pub runs : proc.state ≡ ProcState.running

module _ ⦃v : Platform⦄ where
  -- The PROC that runs calls chan_write or chan_read with the channel's size, which returns or waits;
  -- goes on after a wait; makes a channel. The scheduler ends the round of a PROC that has yielded, or
  -- that waits at a channel; it starts the round of the next PROC, where no sleeper is woken up.
  pub data Step (s s' : State) : Type 0 where
    writes :
        (p c dat r : ℕ) (chan : Chan)
        → Running s p
        → s.chans c ≡ some chan
        → chan_write c dat chan.data_size s ≡ ret r s'
        → Step s s'
    write_waits :
        (p c dat : ℕ) (chan : Chan) (k : State → Run ℕ)
        → Running s p
        → s.chans c ≡ some chan
        → chan_write c dat chan.data_size s ≡ yielded s' k
        → Step s s'
    reads :
        (p c dat r : ℕ) (chan : Chan)
        → Running s p
        → s.chans c ≡ some chan
        → chan_read c dat chan.data_size s ≡ ret r s'
        → Step s s'
    read_waits :
        (p c dat : ℕ) (chan : Chan) (k : State → Run ℕ)
        → Running s p
        → s.chans c ≡ some chan
        → chan_read c dat chan.data_size s ≡ yielded s' k
        → Step s s'
    goes_on : (p r : ℕ) → Running s p → wait_rest p s ≡ ret r s' → Step s s'
    opens :
        (c size : ℕ) (r : Option ℕ)
        → s.chans c ≡ none
        → chan_create (some c) size s ≡ ret r s'
        → Step s s'
    ends_round :
        (p fuel : ℕ) (proc : Proc) (tick : Tick)
        → s.procs p ≡ some proc
        → (proc.state ≡ ProcState.running) ⊎ (proc.state ≡ ProcState.chanwait)
        → tick.madvise_ok ≡ true
        → ltb tick.sp proc.stack_ptr ≡ false
        → finish_turn fuel tick p s ≡ ret tt s'
        → Step s s'
    starts_round :
        (p now_us : ℕ)
        → scheduler_wakeup now_us s ≡ ret tt s
        → next_ready now_us s ≡ ret (some p) s'
        → Step s s'

  pub data Reach (s : State) : State → Type 0 where
    here : Reach s s
    next : {t u : State} → Reach s t → Step t u → Reach s u

ret_inj : {A : Type 0} {a b : A} {s t : State} → ret a s ≡ ret b t → s ≡ t
ret_inj {A} {s} e = ap (λ (r : Run A). elim r [ ret _ u ↦ u | fault _ ↦ s | yielded _ _ ↦ s ]) e

none_ne_some : (p : ℕ) (s t : State) → ¬ (ret none s ≡ ret (some p) t)
none_ne_some p s t e = cc (e)

module _ ⦃v : Platform⦄ where
  next_ready-none :
      (s : State) (now_us : ℕ)
      → scheduler_wakeup now_us s ≡ ret tt s
      → s.sched.ready_q ≡ []
      → next_ready now_us s ≡ ret none s
  unfolding next_ready
  next_ready-none s now_us woken e = rw (woken, e)

module _ ⦃v : Platform⦄ {alt_of : ℕ → ℕ} where
  Running-Caller :
      {s : State} {p : ℕ} → InOrder alt_of s → (run : Running s p) → Caller s p run.proc
  Running-Caller h run = InOrder-Caller h run.current run.at run.runs

  InOrder-opens :
      (s : State) (c size : ℕ)
      → InOrder alt_of s
      → InOrder alt_of (record s {
        chans = update s.chans c (some (record { data_size = size; end_q = []; alt_q = [] }));
      })
  InOrder-opens s c size h =
      let new : Chan = record { data_size = size; end_q = []; alt_q = [] } in
      let s' : State = record s { chans = update s.chans c (some new) } in
      record {
        once = h.once;
        ready = h.ready;
        chans =
            by_chan s s' c new
              (
                ChanEndType.writer,
                record {
                  at = rw (==_refl c);
                  side = inl refl;
                  ends = tt;
                  once = refl;
                  alters = tt;
                },
                tt,
              )
              (λ d there other at.
                ChanInOrder-frame s' d (rw other at) (λ t x on w. (w, on)) (λ x w. w)
                  (h.chans d there at));
      }

  InOrder-starts :
      (s s' : State) (p now_us : ℕ) (q : List ℕ)
      → InOrder alt_of s
      → scheduler_wakeup now_us s ≡ ret tt s
      → next_ready now_us s ≡ ret (some p) s'
      → s.sched.ready_q ≡ q
      → InOrder alt_of s'
  InOrder-starts s s' p now_us [] h woken r e =
      absurd (none_ne_some p s s' (sym (next_ready-none s now_us woken e) ∙ r))
  InOrder-starts s s' p now_us (x ∷ q) h woken r e =
      let (proc, at, is) = (subst (All (ReadyAt s.procs)) e h.ready).0 in
      subst (InOrder alt_of) (ret_inj (sym (next_ready_lem s now_us x q woken e at) ∙ r))
        (InOrder-dispatched x proc q h e at is)

  InOrder-ends :
      (s s' : State) (fuel p : ℕ) (tick : Tick) {proc : Proc}
      → InOrder alt_of s
      → s.procs p ≡ some proc
      → (proc.state ≡ ProcState.running) ⊎ (proc.state ≡ ProcState.chanwait)
      → tick.madvise_ok ≡ true
      → ltb tick.sp proc.stack_ptr ≡ false
      → finish_turn fuel tick p s ≡ ret tt s'
      → InOrder alt_of s'
  InOrder-ends s s' fuel p tick {proc} h at (inl runs) ok above r =
      let out = out_of_ready s.procs s.sched.ready_q at (λ f. cc (runs)) h.ready in
      subst (InOrder alt_of) (ret_inj (sym (finish-running s fuel p tick ok at above runs out) ∙ r))
        (InOrder-with_curr none (
          InOrder-readied p (measured proc tick.sp)
            (InOrder-touched p (measured proc tick.sp) h at refl (λ f. cc (runs)) (λ f. cc (runs)))
            (rw (==_refl p)) runs))
  InOrder-ends s s' fuel p tick {proc} h at (inr waits) ok above r =
      subst (InOrder alt_of) (ret_inj (sym (finish-waiting s fuel p tick ok at above waits) ∙ r)) (
        InOrder-with_curr none
          (InOrder-touched p (measured proc tick.sp) h at refl (λ f. cc (waits)) (λ f. cc (waits))))

  -- A step keeps all channels in order.
  Step-InOrder : {s s' : State} → Step s s' → InOrder alt_of s → InOrder alt_of s'
  unfolding chan_create
  Step-InOrder (writes p c dat r chan run at e) h =
      (subst (Keeps alt_of p) e (chan_write-Keeps h c dat at (Running-Caller h run))).1
  Step-InOrder (write_waits p c dat chan k run at e) h =
      (subst (Keeps alt_of p) e (chan_write-Keeps h c dat at (Running-Caller h run))).0
  Step-InOrder (reads p c dat r chan run at e) h =
      (subst (Keeps alt_of p) e (chan_read-Keeps h c dat at (Running-Caller h run))).1
  Step-InOrder (read_waits p c dat chan k run at e) h =
      (subst (Keeps alt_of p) e (chan_read-Keeps h c dat at (Running-Caller h run))).0
  Step-InOrder {s} (goes_on p r run e) h =
      subst (InOrder alt_of) (ret_inj e) (InOrder-unended p h run.at run.runs)
  Step-InOrder {s} (opens c size r at e) h =
      subst (InOrder alt_of) (ret_inj e) (InOrder-opens s c size h)
  Step-InOrder {s} {s'} (ends_round p fuel proc tick at state ok above e) h =
      InOrder-ends s s' fuel p tick h at state ok above e
  Step-InOrder {s} {s'} (starts_round p now_us woken e) h =
      InOrder-starts s s' p now_us s.sched.ready_q h woken e refl

  Reach-InOrder : {s t : State} → Reach s t → InOrder alt_of s → InOrder alt_of t
  Reach-InOrder here h = h
  Reach-InOrder (next r st) h = Step-InOrder st (Reach-InOrder r h)

  -- From a store in which all channels are in order, let PROCs write, read, wait, go on and yield, new
  -- channels be made, and the scheduler start and end rounds, in any order. In whatever store that
  -- leads to, a write or a read of a channel's size by the PROC that runs does not fault: it returns 1,
  -- or waits, to return 1 when it is resumed; and all channels are in order after it.
  pub reach-Keeps :
      {s t : State} (c dat : ℕ) {chan : Chan} {p : ℕ}
      → InOrder alt_of s
      → Reach s t
      → Running t p
      → t.chans c ≡ some chan
      → Keeps alt_of p (chan_write c dat chan.data_size t)
        × Keeps alt_of p (chan_read c dat chan.data_size t)
  reach-Keeps c dat h r run at =
      let now = Reach-InOrder r h in
      (
        chan_write-Keeps now c dat at (Running-Caller now run),
        chan_read-Keeps now c dat at (Running-Caller now run),
      )
