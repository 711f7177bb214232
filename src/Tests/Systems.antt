-- ===== src/Tests/Systems.antt =====
-- The theorem on runs of the system at a concrete run.
use libproxc.Base.{◌≡◌, refl, inl, inr, true, false, none, some, [], ◌∷◌, update}
use libproxc.Platform.Model.{lists}
use libproxc.Store.{State, ProcState, Proc, Chan, ChanEndType}
use libproxc.Scheduler.Loop.{Tick}
use libproxc.Scheduler.Loop.Turns.{wakeup-none, next_ready_lem, finish-waiting, measured}
use libproxc.Chan.Ops.{chan_write, chan_read}
use libproxc.Chan.Ops.Open.{IsOpen, Caller}
use libproxc.Chan.Ops.Parts.{waiting}
use libproxc.Chan.Read.{read-waits}
use libproxc.Chan.System.{InOrder}
use libproxc.Chan.System.Moves.{by_chan}
use libproxc.Chan.System.Calls.{Keeps}
use libproxc.Chan.System.Rounds.{dispatched}
use libproxc.Chan.System.Steps.{
  Running, Reach, here, next, read_waits, ends_round, starts_round, reach-Keeps,
}
use libproxc.Tests.States.{no_sched, no_state, a_proc}

abbrev channel : Chan
channel = record { data_size = 1; end_q = []; alt_q = [] }

abbrev runner : Proc
runner = record (a_proc ProcState.running) { ctx_fresh = false }

-- PROC 1 runs, PROC 2 is ready.
abbrev s0 : State
s0 = record no_state {
  procs = update (update no_state.procs 1 (some runner)) 2 (some (a_proc ProcState.ready));
  chans = update no_state.chans 50 (some channel);
  sched = record no_sched { curr_proc = some 1; ready_q = 2 ∷ [] };
}

abbrev open_in :
    (s : State) → s.chans 50 ≡ some channel → IsOpen (λ _. 0) s 50 channel ChanEndType.writer
open_in s at = record { at = at; side = inl refl; ends = tt; once = refl; alters = tt }

s0-InOrder : InOrder (λ _. 0) s0
s0-InOrder = record {
  once = refl;
  ready = ((a_proc ProcState.ready, refl, refl), tt);
  chans =
      by_chan no_state s0 50 channel (ChanEndType.writer, open_in s0 refl, tt)
        (λ d there other at. absurd (cc (at)));
}

-- PROC 1 reads and waits.
abbrev s1 : State
s1 = waiting s0 ChanEndType.reader 50 700 1 channel runner

abbrev tick : Tick
tick = record { now_us = 7; sp = 8000; madvise_ok = true }

abbrev waiter : Proc
waiter = record runner { state = ProcState.chanwait }

-- Its round ends.
abbrev s2 : State
s2 = record s1 {
  procs = update s1.procs 1 (some (measured waiter 8000));
  sched = record s1.sched { curr_proc = none };
}

-- The round of PROC 2 starts.
abbrev s3 : State
s3 = dispatched s2 2 (a_proc ProcState.ready) []

one_runs : Running s0 1
one_runs = record { proc = runner; current = refl; at = refl; runs = refl }

one-Caller : Caller s0 1 runner
one-Caller = record { current = refl; at = refl; runs = refl; out = refl }

run_to_s3 : Reach s0 s3
run_to_s3 =
    next
      (next
        (next here (
          read_waits 1 50 700 channel _ one_runs refl (
            read-waits s0 50 700 1 {chan = channel} refl refl (open_in s0 refl) one-Caller
              (inl refl))))
        (ends_round 1 4 waiter tick refl (inr refl) refl refl
          (finish-waiting s1 4 1 tick {proc = waiter} refl refl refl refl)))
      (starts_round 2 7 (wakeup-none s2 7 refl refl)
        (next_ready_lem s2 7 2 [] (wakeup-none s2 7 refl refl) refl refl))

reach-Keeps_example :
    Keeps (λ _. 0) 2 (chan_write 50 800 1 s3) × Keeps (λ _. 0) 2 (chan_read 50 800 1 s3)
reach-Keeps_example =
    reach-Keeps 50 800 s0-InOrder run_to_s3
      (record {
        proc = record (a_proc ProcState.ready) { state = ProcState.running };
        current = refl;
        at = refl;
        runs = refl;
      })
      refl
