-- ===== src/Chan/System/Rounds.antt =====
-- What the scheduler's loop does between the calls of PROCs keeps all channels in order.
use libproxc.Base.{
  ℕ, ◌≡◌, ◌≢◌, sym, ap, ◌∙◌, refl, true, false, none, some, List, ◌∷◌, arith, ◌==◌, ==_iff, elem,
  distinct, distinct-uncons, All, Bool-cases, inl, inr, update, distinct-snoc, Option,
}
use mathlib.Core.Path.{subst}
use libproxc.Store.{State, Proc, ProcState, ChanEndType}
use libproxc.Scheduler.Queues.Fifo.{readied}
use libproxc.Chan.Ops.Open.{EndAt}
use libproxc.Chan.Ops.Open.Frames.{EndAt-frame, EndAt-ne, AlterAt-frame, elem-snoc_ne}
use libproxc.Chan.System.{
  ReadyAt, InOrder, out_of_ready, ready-frame, ready-snoc, ChanInOrder-frame,
}

not_tail :
    {r : List ℕ} (p : ℕ) (q : List ℕ) (x : ℕ) → r ≡ p ∷ q → elem x r ≡ false → elem x q ≡ false
not_tail p q x e out =
    let out' : elem x (p ∷ q) ≡ false = subst (λ r. elem x r ≡ false) e out in ground (arith, out')

-- The store when the PROC at the front of the ready queue is about to run.
abbrev pub dispatched : State → (p : ℕ) → Proc → List ℕ → State
dispatched s p proc q = record s {
  procs = update s.procs p (some (record proc { state = ProcState.running }));
  sched = record s.sched { ready_q = q; curr_proc = some p };
}

pub InOrder-dispatched :
    {alt_of : ℕ → ℕ} {s : State} (p : ℕ) (proc : Proc) (q : List ℕ)
    → InOrder alt_of s
    → s.sched.ready_q ≡ p ∷ q
    → s.procs p ≡ some proc
    → proc.state ≡ ProcState.ready
    → InOrder alt_of (dispatched s p proc q)
InOrder-dispatched {s} p proc q h e at is =
    let once : distinct (p ∷ q) ≡ true = subst (λ r. distinct r ≡ true) e h.once in
    let (out, once') = distinct-uncons p q once in
    record {
      once = once';
      ready = ready-frame s.procs q p _ out (subst (All (ReadyAt s.procs)) e h.ready).1;
      chans = λ c chan at_c.
          ChanInOrder-frame (dispatched s p proc q) c at_c
            (λ t x on w.
              let ne : (p == x) ≡ false = EndAt-ne w at (λ f. cc (is)) in
              (EndAt-frame p _ ne refl (not_tail p q x e) w, on))
            (λ x w. AlterAt-frame p _ (λ y n out. not_tail p q y e out) at (λ f. cc (is)) w)
            (h.chans c chan at_c);
    }

-- A PROC that is not ready changes, and not its state.
abbrev pub touched : State → (p : ℕ) → Proc → State
touched s p v = record s { procs = update s.procs p (some v) }

EndAt-touched :
    (s : State) (p : ℕ) (v : Proc) {proc : Proc} {t : ChanEndType} {x : ℕ}
    → s.procs p ≡ some proc
    → v.state ≡ proc.state
    → EndAt s.ends s.procs s.sched.ready_q t x
    → EndAt s.ends (update s.procs p (some v)) s.sched.ready_q t x
EndAt-touched s p v {proc} {x} at same w = elim (Bool-cases (p == x)) [
  | inl here ↦
      let eq : p ≡ x = (==_iff p x).0 here in
      let both : some proc ≡ some w.proc = sym at ∙ ap s.procs eq ∙ w.proc_at in
      record {
        chan_end = w.chan_end;
        at = w.at;
        typed = w.typed;
        owner = w.owner;
        proc = v;
        proc_at = rw here;
        waits = cc (both, same, w.waits);
        out = w.out;
      }
  | inr other ↦ EndAt-frame p _ other refl (λ o. o) w
]

pub InOrder-touched :
    {alt_of : ℕ → ℕ} {s : State} (p : ℕ) (v : Proc) {proc : Proc}
    → InOrder alt_of s
    → s.procs p ≡ some proc
    → v.state ≡ proc.state
    → proc.state ≢ ProcState.ready
    → proc.state ≢ ProcState.altwait
    → InOrder alt_of (touched s p v)
InOrder-touched {s} p v h at same not_ready not_alt = record {
  once = h.once;
  ready =
      ready-frame s.procs s.sched.ready_q p _
        (out_of_ready s.procs s.sched.ready_q at not_ready h.ready) h.ready;
  chans = λ c chan at_c.
      ChanInOrder-frame (touched s p v) c at_c (λ t x on w. (EndAt-touched s p v at same w, on))
        (λ x w. AlterAt-frame p _ (λ y n out. out) at not_alt w) (h.chans c chan at_c);
}

-- The PROC that runs becomes ready.
pub InOrder-readied :
    {alt_of : ℕ → ℕ} {s : State} (p : ℕ) (proc : Proc)
    → InOrder alt_of s
    → s.procs p ≡ some proc
    → proc.state ≡ ProcState.running
    → InOrder alt_of (readied s p proc)
InOrder-readied {s} p proc h at runs =
    let out = out_of_ready s.procs s.sched.ready_q at (λ f. cc (runs)) h.ready in
    record {
      once = distinct-snoc s.sched.ready_q p h.once out;
      ready = ready-snoc s.procs s.sched.ready_q p _ out refl h.ready;
      chans = λ c chan at_c.
          ChanInOrder-frame (readied s p proc) c at_c
            (λ t x on w.
              let ne : (p == x) ≡ false = EndAt-ne w at (λ f. cc (runs)) in
              (EndAt-frame p _ ne refl (elem-snoc_ne p _ x ne) w, on))
            (λ x w. AlterAt-frame p _ (λ y n o. elem-snoc_ne p _ y n o) at (λ f. cc (runs)) w)
            (h.chans c chan at_c);
    }

-- Which PROC runs does not matter to the queues.
abbrev pub with_curr : State → Option ℕ → State
with_curr s p = record s { sched = record s.sched { curr_proc = p } }

pub InOrder-with_curr :
    {alt_of : ℕ → ℕ} {s : State} (p : Option ℕ) → InOrder alt_of s → InOrder alt_of (with_curr s p)
InOrder-with_curr {s} p h = record {
  once = h.once;
  ready = h.ready;
  chans = λ c chan at_c.
      ChanInOrder-frame (with_curr s p) c at_c (λ t x on w. (w, on)) (λ x w. w)
        (h.chans c chan at_c);
}

-- The ChanEnd of a PROC that does not wait any more goes away.
abbrev pub unended : State → (p : ℕ) → State
unended s p = record s { ends = update s.ends p none }

pub InOrder-unended :
    {alt_of : ℕ → ℕ} {s : State} (p : ℕ) {proc : Proc}
    → InOrder alt_of s
    → s.procs p ≡ some proc
    → proc.state ≡ ProcState.running
    → InOrder alt_of (unended s p)
InOrder-unended {s} p h at runs = record {
  once = h.once;
  ready = h.ready;
  chans = λ c chan at_c.
      ChanInOrder-frame (unended s p) c at_c
        (λ t x on w.
          let ne : (p == x) ≡ false = EndAt-ne w at (λ f. cc (runs)) in
          (
            record {
              chan_end = w.chan_end;
              at = rw ne w.at;
              typed = w.typed;
              owner = w.owner;
              proc = w.proc;
              proc_at = w.proc_at;
              waits = w.waits;
              out = w.out;
            },
            rw ne on,
          ))
        (λ x w. w) (h.chans c chan at_c);
}
