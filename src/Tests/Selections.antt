-- ===== src/Tests/Selections.antt =====
-- The theorems on the whole of an alternation at concrete inputs.
use libproxc.Base.{
  none, ℕ, ℤ, pos, Bool, elem, inl, inr, true, ◌==◌, if◌then◌else◌, ◌≡◌, refl, some, [], ◌∷◌,
  update,
}
use libproxc.Platform.Model.{lists}
use libproxc.Store.{
  State, Proc, ProcState, ChanEnd, ChanEndType, Guard, guard_chan, guard_skip, Chan, Alt, Run, ret,
  yielded,
}
use libproxc.Chan.Copy.{chan_copydata}
use libproxc.Chan.Ops.{chan_write}
use libproxc.Chan.Rendezvous.{running}
use libproxc.Alt.Guards.{blank_guard}
use libproxc.Alt.Select.{alt_select}
use libproxc.Chan.Keeps.{Ends}
use libproxc.Alt.Queues.{Idle}
use libproxc.Alt.Offers.{Offered}
use libproxc.Alt.Numbered.{Numbered, add_guards-Numbered}
use libproxc.Proxc.Choice.{add_guards}
use libproxc.Alt.Taken.{Takes, select-Takes}
use libproxc.Alt.Rendezvous.{select-then-write}
use libproxc.Tests.States.{no_sched, no_state, a_proc, an_alt}

-- A guard at `g` on the channel at `c`, of the alternation at 20 of PROC 1.
abbrev on_chan : (g c key : ℕ) → Guard
on_chan g c key = record (blank_guard guard_chan) {
  key = pos key;
  alt = some 20;
  chan = some c;
  data_ptr = 100;
  data_size = 2;
  ch_end = record {
    type = ChanEndType.alter;
    data_ptr = 100;
    chan = some c;
    proc = some 1;
    guard = some g;
  };
}

abbrev empty_chan : Chan
empty_chan = record { data_size = 2; end_q = []; alt_q = [] }

abbrev alt : Alt
alt = record (an_alt 1) { key_count = 2; guards_num = 2; guards_q = 30 ∷ 31 ∷ [] }

abbrev caller : Proc
caller = a_proc ProcState.running

-- PROC 1 runs; its alternation has the guards 30 on channel 10 and 31 on channel 11.
abbrev store : State
store = record no_state {
  procs = update no_state.procs 1 (some caller);
  chans = update (update no_state.chans 10 (some empty_chan)) 11 (some empty_chan);
  guards = update (update no_state.guards 30 (some (on_chan 30 10 0))) 31 (some (on_chan 31 11 1));
  alts = update no_state.alts 20 (some alt);
  sched = record no_sched { curr_proc = some 1 };
}

abbrev chan_of : ℕ → ℕ
chan_of g = if g == 30 then 10 else 11

abbrev bytes : ℕ → ℕ
bytes a = if a == 200 then 7 else 9

select-then-write_example :
    (s1 s2 s3 : State) × (k : State → Run ℤ) × (alt_select true 5 20 store ≡ yielded s1 k)
    × (chan_write 11 200 2 (running s1 2 (a_proc ProcState.ready) bytes) ≡ ret 1 s2)
    × (s2.bytes ≡ chan_copydata bytes 100 200 2)
    × (s2.sched.ready_q ≡ 1 ∷ [])
    × (k (record s2 { procs = no_state.procs; bytes = bytes; sched = no_sched }) ≡ ret (pos 1) s3)
    × (s3.chans ≡ store.chans)
select-then-write_example =
    select-then-write chan_of store 5 20 {alt = alt} {proc = caller} refl refl refl
      (
        record {
          guard = on_chan 30 10 0;
          at = refl;
          typed = refl;
          on = refl;
          chan = empty_chan;
          chan_at = refl;
          empty = refl;
          out = refl;
        },
        (
          record {
            guard = on_chan 31 11 1;
            at = refl;
            typed = refl;
            on = refl;
            chan = empty_chan;
            chan_at = refl;
            empty = refl;
            out = refl;
          },
          tt,
        ),
      )
      (record { current = refl; at = refl; runs = refl; out = refl }) 11 200 2
      (a_proc ProcState.ready) bytes 31 {guard = on_chan 31 11 1} no_state.procs bytes no_sched refl
      refl refl refl refl refl refl refl

abbrev writer : Proc
writer = a_proc ProcState.chanwait

abbrev writer_end : ChanEnd
writer_end = record {
  type = ChanEndType.writer;
  data_ptr = 200;
  chan = some 10;
  proc = some 2;
  guard = none;
}

abbrev written : Chan
written = record { data_size = 2; end_q = 2 ∷ []; alt_q = [] }

-- PROC 2 waits as a writer on channel 10.
abbrev offered : State
offered = record store {
  procs = update store.procs 2 (some writer);
  chans = update store.chans 10 (some written);
  ends = update store.ends 2 (some writer_end);
}

abbrev offers : ℕ → Bool
offers g = g == 30

abbrev at_30 : Offered chan_of (Ends offered ChanEndType.writer) offered.chans offered.guards 30
at_30 = record {
  guard = on_chan 30 10 0;
  at = refl;
  typed = refl;
  on = refl;
  outside = refl;
  chan = written;
  chan_at = refl;
  sized = refl;
  e = 2;
  q = [];
  queue = refl;
  writes = record {
    chan_end = writer_end;
    at = refl;
    typed = refl;
    owner = refl;
    proc = writer;
    proc_at = refl;
    waits = refl;
    out = refl;
  };
}

abbrev at_31 : Idle chan_of offered.chans offered.guards 31
at_31 = record {
  guard = on_chan 31 11 1;
  at = refl;
  typed = refl;
  on = refl;
  chan = empty_chan;
  chan_at = refl;
  empty = refl;
  out = refl;
}

select-Takes_example :
    (g : ℕ) × (h : Offered chan_of (Ends offered ChanEndType.writer) offered.chans offered.guards g)
    × (elem g (30 ∷ 31 ∷ []) ≡ true)
    × (offers g ≡ true)
    × Takes chan_of offered 5 20 no_state.procs no_state.chans bytes no_sched g h
select-Takes_example =
    select-Takes chan_of offered 5 20 no_state.procs no_state.chans bytes no_sched offers
      {alt = alt} {self = 1} refl refl (inl (refl, at_30), (inr (refl, at_31), tt)) refl 30 refl
      refl

abbrev fresh_alt : Alt
fresh_alt = record (an_alt 1) { key_count = 0; guards_num = 0 }

-- The guards at 30 and 31 are not in the alternation at 20 yet.
abbrev unadded : State
unadded = record store {
  guards =
      update (update no_state.guards 30 (some (blank_guard guard_chan))) 31
        (some (blank_guard guard_skip));
  alts = update no_state.alts 20 (some fresh_alt);
}

add_guards-Numbered_example :
    (s' : State) × (add_guards 20 (some 30 ∷ none ∷ some 31 ∷ []) unadded ≡ ret tt s')
    × Numbered unadded s' 20 fresh_alt (some 30 ∷ none ∷ some 31 ∷ [])
add_guards-Numbered_example =
    add_guards-Numbered 20 (some 30 ∷ none ∷ some 31 ∷ []) unadded {alt = fresh_alt} refl refl
      (refl, (refl, tt))
      ((blank_guard guard_chan, refl, refl), ((blank_guard guard_skip, refl, refl), tt))
