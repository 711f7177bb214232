-- ===== src/Chan/Ops/Parts.antt =====
-- The parts of chan_write and chan_read, one equation each.
use mathlib.Core.Path.{subst}
use libproxc.Base.{true, ◌⊎◌, inl, inr, All}
use libproxc.Base.{
  ℕ, ◌≡◌, Bool, false, none, some, List, [], ◌∷◌, ◌++◌, arith, elem, if◌then◌else◌, update, ==_refl,
}
use libproxc.Platform.{Platform}
use libproxc.Platform.Links.{tailq_insert_tail_lem, tailq_remove_lem}
use libproxc.Store.{State, Proc, ProcState, ChanEnd, ChanEndType, Chan, Run, ret, yielded}
use libproxc.Scheduler.Queues.{scheduler_addready}
use libproxc.Scheduler.Queues.{proc_self, proc_yield}
use libproxc.Alt.Accept.{alt_accept}
use libproxc.Store.{Alt}
use libproxc.Scheduler.Queues.Fifo.{readied, addready_lem}
use libproxc.Chan.Copy.{chan_copydata}
use libproxc.Chan.Ops.Open.{AlterAt, EndAt, IsOpen}
use libproxc.Chan.Ops.{first_end, copydata, remove_end, write_alt, wait_end}

abbrev pub with_chan : State → ℕ → Chan → State
with_chan s c chan = record s { chans = update s.chans c (some chan) }

-- The store after the alternation `a` has accepted the guard `g`.
abbrev pub accepted : State → (a g : ℕ) → Alt → State
accepted s a g alt = record s {
  alts = update s.alts a (some (record alt { is_accepted = true; winner = some g }));
}

-- What waits is the rest of the run: the ChanEnd goes, and the call returns 1.
abbrev pub wait_rest : ℕ → State → Run ℕ
wait_rest self s = ret 1 (record s { ends = update s.ends self none })

abbrev pub waiting_end : ChanEndType → (c dat self : ℕ) → ChanEnd
waiting_end type c dat self = record {
  type = type;
  data_ptr = dat;
  chan = some c;
  proc = some self;
  guard = none;
}

abbrev pub waiting : State → ChanEndType → (c dat self : ℕ) → Chan → Proc → State
waiting s type c dat self chan proc = record s {
  ends = update s.ends self (some (waiting_end type c dat self));
  chans = update s.chans c (some (record chan { end_q = chan.end_q ++ self ∷ [] }));
  procs = update s.procs self (some (record proc { state = ProcState.chanwait }));
}

pub first_end-nil :
    (s : State) (c : ℕ) {chan : Chan} (test : ChanEndType → Bool)
    → s.chans c ≡ some chan
    → chan.end_q ≡ []
    → first_end test c s ≡ ret none s
unfolding first_end
first_end-nil s c test h q = rw (h, q)

pub first_end-cons :
    (s : State) (c : ℕ) {chan : Chan} {e : ℕ} {q : List ℕ} {end : ChanEnd}
    (test : ChanEndType → Bool)
    → s.chans c ≡ some chan
    → chan.end_q ≡ e ∷ q
    → s.ends e ≡ some end
    → first_end test c s ≡ ret (if test end.type then some e else none) s
unfolding first_end
first_end-cons s c test h q e = rw (h, q, e)

-- No end in the queue passes the test.
pub no_first :
    (s : State) (c : ℕ) {chan : Chan} {type : ChanEndType} {alt_of : ℕ → ℕ}
    → IsOpen alt_of s c chan type
    → (test : ChanEndType → Bool) (q : List ℕ) → chan.end_q ≡ q
    → (q ≡ []) ⊎ (test type ≡ false)
    → first_end test c s ≡ ret none s
no_first s c h test [] e side = first_end-nil s c test h.at e
no_first s c h test (x ∷ q) e (inl nil) = absurd (cc)
no_first s c {type} h test (x ∷ q) e (inr w) =
    let first : EndAt s.ends s.procs s.sched.ready_q type x =
      (subst (All (EndAt s.ends s.procs s.sched.ready_q type)) e h.ends).0 in
    rw (first_end-cons s c test h.at e first.at, first.typed, w)

module _ ⦃v : Platform⦄ where
  pub remove_end-cons :
      (s : State) (c : ℕ) {chan : Chan} {e : ℕ} {q : List ℕ}
      → s.chans c ≡ some chan
      → chan.end_q ≡ e ∷ q
      → remove_end c e s ≡ ret tt (with_chan s c (record chan { end_q = q }))
  unfolding remove_end
  remove_end-cons s c {chan} {e} {q} h eq = rw (h, tailq_remove_lem chan.end_q e, eq, ==_refl e)

  pub copydata_lem :
      (s : State) (dst src size : ℕ)
      → copydata dst src size s ≡ ret tt (record s { bytes = chan_copydata s.bytes dst src size })
  unfolding copydata
  copydata_lem s dst src size = ground arith

  pub write_alt-nil :
      (s : State) (c dat size : ℕ) {chan : Chan}
      → s.chans c ≡ some chan
      → chan.alt_q ≡ []
      → write_alt c dat size s ≡ ret false s
  unfolding write_alt
  write_alt-nil s c dat size h q = rw (h, q)

  -- The store after `p` has been handed the bytes at `src`, in `dst`, and made ready.
  abbrev pub handed : State → (p : ℕ) → Proc → (dst src size : ℕ) → State
  handed s p proc dst src size =
      readied (record s { bytes = chan_copydata s.bytes dst src size }) p proc

  module _ (s : State) (c dat size : ℕ) {chan : Chan} {g : ℕ} {q : List ℕ}
      (at : s.chans c ≡ some chan) (first : chan.alt_q ≡ g ∷ q) {alt_of : ℕ → ℕ}
      (h : AlterAt alt_of s.guards s.alts s.procs s.sched.ready_q g) where
    open h use {guard, own, member, alt, alt_at, alter, proc, proc_at}

    -- The first alternation has accepted another guard: nothing is done.
    pub write_alt-refused : alt.is_accepted ≡ true → write_alt c dat size s ≡ ret false s
    unfolding write_alt alt_accept
    write_alt-refused acc = rw (at, first, h.at, own, h.at, member, alt_at, acc)

    -- It accepts: it is handed the data.
    pub write_alt-accepted :
        alt.is_accepted ≡ false
        → write_alt c dat size s
          ≡ ret true (handed (accepted s h.a g alt) h.p proc guard.ch_end.data_ptr dat size)
    unfolding write_alt alt_accept
    write_alt-accepted free =
        let t : State = record (accepted s h.a g alt) {
          bytes = chan_copydata s.bytes guard.ch_end.data_ptr dat size;
        } in
        let ready : scheduler_addready h.p t ≡ ret tt (readied t h.p proc) =
          addready_lem t proc_at (h.out free) in
        rw (at, first, h.at, own, h.at, member, alt_at, free, copydata_lem, alter) (rw ready)

  pub wait_end_lem :
      (s : State) (type : ChanEndType) (c dat : ℕ) {chan : Chan} {self : ℕ} {proc : Proc}
      → s.chans c ≡ some chan
      → s.sched.curr_proc ≡ some self
      → s.procs self ≡ some proc
      → elem self chan.end_q ≡ false
      → wait_end type c dat s ≡ yielded (waiting s type c dat self chan proc) (wait_rest self)
  unfolding wait_end proc_self proc_yield
  wait_end_lem s type c dat {chan} {self} h cu pr out =
      rw (cu, h, tailq_insert_tail_lem chan.end_q self, out, pr)
