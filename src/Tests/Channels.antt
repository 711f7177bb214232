-- ===== src/Tests/Channels.antt =====
-- The theorems on channels at concrete inputs.
use libproxc.Base.{false, true, none, ◌∷◌, ℕ, ◌≡◌, refl, inl, some, [], update, arith}
use libproxc.Platform.Model.{lists}
use libproxc.Store.{
  Guard, guard_chan, ChanEnd, State, ProcState, Chan, ChanEndType, Run, ret, yielded,
}
use libproxc.Chan.Ops.{chan_altenable, chan_altdisable, chan_altread}
use libproxc.Chan.Ops.Parts.{with_chan, handed}
use libproxc.Chan.Keeps.{Ends}
use libproxc.Chan.Guarded.{altenable-altdisable, altenable-altread}
use libproxc.Alt.Guards.{blank_guard}
use libproxc.Chan.Ops.{first_end}
use libproxc.Chan.Copy.{chan_copydata}
use libproxc.Chan.Copy.Bytes.{IsBytes, overwrite, copydata-overwrite}
use libproxc.Chan.Ops.{chan_write, chan_read}
use libproxc.Chan.Ops.Open.{IsOpen, Caller}
use libproxc.Chan.Invariant.{Kept, chan_write-Kept, chan_read-Kept}
use libproxc.Chan.Rendezvous.{running, Met, read-then-write, write-then-read}
use libproxc.Tests.States.{no_sched, no_state, a_proc}

abbrev bytes : ℕ → ℕ
bytes = update (λ _. 0) 800 77

bytes-IsBytes : IsBytes bytes
bytes-IsBytes a = ground arith

abbrev channel : Chan
channel = record { data_size = 1; end_q = []; alt_q = [] }

abbrev a_guard : Guard
a_guard = record (blank_guard guard_chan) { chan = some 50; data_ptr = 700; data_size = 1 }

-- PROC 1 runs, PROC 2 is ready elsewhere, the channel at 50 has no ends.
abbrev store : State
store = record no_state {
  procs =
      update (update no_state.procs 1 (some (a_proc ProcState.running))) 2
        (some (a_proc ProcState.ready));
  chans = update no_state.chans 50 (some channel);
  guards = update no_state.guards 30 (some a_guard);
  bytes = bytes;
  sched = record no_sched { curr_proc = some 1 };
}

channel-IsOpen : IsOpen (λ _. 0) store 50 channel ChanEndType.writer
channel-IsOpen = record { at = refl; side = inl refl; ends = tt; once = refl; alters = tt }

one-Caller : Caller store 1 (a_proc ProcState.running)
one-Caller = record { current = refl; at = refl; runs = refl; out = refl }

read-then-write_example :
    (s1 s2 s3 : State) × (k : State → Run ℕ) × (chan_read 50 700 1 store ≡ yielded s1 k)
    × (chan_write 50 800 1 (running s1 2 (a_proc ProcState.ready) bytes) ≡ ret 1 s2)
    × Met store s2 50 1 700 800 1 bytes
    × (k s2 ≡ ret 1 s3)
read-then-write_example =
    read-then-write 700 800 2 (a_proc ProcState.ready) channel-IsOpen one-Caller refl bytes
      bytes-IsBytes refl refl (inl (omega arith))

write-then-read_example :
    (s1 s2 s3 : State) × (k : State → Run ℕ) × (chan_write 50 800 1 store ≡ yielded s1 k)
    × (chan_read 50 700 1 (running s1 2 (a_proc ProcState.ready) bytes) ≡ ret 1 s2)
    × Met store s2 50 1 700 800 1 bytes
    × (k s2 ≡ ret 1 s3)
write-then-read_example =
    write-then-read 700 800 2 (a_proc ProcState.ready) channel-IsOpen one-Caller refl bytes
      bytes-IsBytes refl refl (inl (omega arith))

chan_write-Kept_example : Kept (λ _. 0) 50 1 (chan_write 50 800 1 store)
chan_write-Kept_example = chan_write-Kept 800 1 channel-IsOpen one-Caller refl

chan_read-Kept_example : Kept (λ _. 0) 50 1 (chan_read 50 700 1 store)
chan_read-Kept_example = chan_read-Kept 700 1 channel-IsOpen one-Caller refl

copydata-overwrite_example : chan_copydata bytes 700 800 8 700 ≡ overwrite bytes bytes 700 800 8 700
copydata-overwrite_example =
    copydata-overwrite bytes 700 800 8 bytes-IsBytes (inl (omega arith)) 700

altenable-altdisable_example :
    (s' : State) × (chan_altenable 50 30 store ≡ ret false s')
    × (s'.chans 50 ≡ some (record channel { alt_q = 30 ∷ [] }))
    × (chan_altdisable 50 30 s' ≡ ret tt store)
unfolding first_end
altenable-altdisable_example = altenable-altdisable store 50 30 refl refl refl refl refl

-- PROC 1 waits to write the byte at 800.
abbrev an_end : ChanEnd
an_end = record {
  type = ChanEndType.writer;
  data_ptr = 800;
  chan = some 50;
  proc = some 1;
  guard = none;
}

abbrev writes : Chan
writes = record channel { end_q = 1 ∷ [] }

abbrev waiting_store : State
waiting_store = record store {
  procs = update store.procs 1 (some (a_proc ProcState.chanwait));
  chans = update store.chans 50 (some writes);
  ends = update store.ends 1 (some an_end);
  sched = record no_sched { curr_proc = some 2 };
}

writes-IsOpen : IsOpen (λ _. 0) waiting_store 50 writes ChanEndType.writer
writes-IsOpen = record {
  at = refl;
  side = inl refl;
  ends = (
    record {
      chan_end = an_end;
      at = refl;
      typed = refl;
      owner = refl;
      proc = a_proc ProcState.chanwait;
      proc_at = refl;
      waits = refl;
      out = refl;
    },
    tt,
  );
  once = refl;
  alters = tt;
}

altenable-altread_example :
    (first : Ends waiting_store ChanEndType.writer 1) × (s' : State) × (chan_altenable 50 30
        waiting_store
      ≡ ret true waiting_store)
    × (chan_altread 50 30 1 waiting_store ≡ ret tt s')
    × (s' ≡ handed (with_chan waiting_store 50 channel) 1 first.proc 700 first.chan_end.data_ptr 1)
    × IsOpen (λ _. 0) s' 50 channel ChanEndType.writer
altenable-altread_example =
    altenable-altread waiting_store 50 30 {chan = writes} refl refl writes-IsOpen refl
