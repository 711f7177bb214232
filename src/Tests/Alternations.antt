-- ===== src/Tests/Alternations.antt =====
-- The theorems on alternations at concrete inputs.
use libproxc.Base.{ℕ, ◌≡◌, refl, true, false, some, [], ◌∷◌, update, arith, elem}
use libproxc.Platform.Model.{lists}
use libproxc.Store.{State, ProcState, Guard, guard_time, Alt, ret, fault, corrupt, dangling}
use libproxc.Scheduler.Wakeup.{wakeup_guard}
use libproxc.Alt.Accept.{alt_accept}
use libproxc.Alt.Guards.{blank_guard, alt_cleanup, alt_addguard}
use libproxc.Alt.Select.{alt_choose, alt_enable, alt_disable}
use libproxc.Alt.Winner.{accept_once, choose-elem_ready}
use libproxc.Alt.Freed.{cleanup_dangling, addguard_earlier_frees}
use libproxc.Alt.Timeout.{timeout-disable}
use libproxc.Alt.Pending.{alt_disable-alt_enable}
use libproxc.Platform.{sorted_by}
use libproxc.Scheduler.Sleep.{usec_at}
use libproxc.Tests.States.{no_sched, no_state, a_proc, an_alt}

abbrev time_guard : ℕ → Guard
time_guard us = record (blank_guard guard_time) { alt = some 20; usec = us }

abbrev two_guards : Alt
two_guards = record (an_alt 1) {
  ready_num = 2;
  ready_guards = some (30 ∷ 31 ∷ []);
  guards_q = 30 ∷ [];
  guard_time = some 30;
}

-- The alternation at 20 of PROC 1, which waits: it has the guard at 30, and may get that at 31.
abbrev store : State
store = record no_state {
  procs = update no_state.procs 1 (some (a_proc ProcState.altwait));
  alts = update no_state.alts 20 (some two_guards);
  guards = update (update no_state.guards 30 (some (time_guard 500))) 31 (some (time_guard 400));
  sched = record no_sched { altsleep_rb = 30 ∷ []; altsleep_num = 1 };
}

accept_once_example :
    (s' : State) × (winner : Alt) × (alt_accept 31 store ≡ ret true s')
    × (s'.alts 20 ≡ some winner)
    × (winner.winner ≡ some 31)
    × (alt_accept 30 s' ≡ ret false s')
accept_once_example = accept_once store 31 30 refl refl refl refl refl refl

choose-elem_ready_example :
    (g : ℕ) × (alt_choose 5 20 store
      ≡ ret tt (record store {
        alts = update store.alts 20 (some (record two_guards { winner = some g }));
      }))
    × (elem g (30 ∷ 31 ∷ []) ≡ true)
choose-elem_ready_example = choose-elem_ready store 5 20 refl refl refl (omega arith)

cleanup_dangling_example : alt_cleanup (some 20) store ≡ fault dangling
cleanup_dangling_example = cleanup_dangling store 20 30 refl refl refl

addguard_earlier_frees_example :
    (s' : State) × (alt' : Alt) × (alt_addguard 20 (some 31) store ≡ ret tt s')
    × (s'.alts 20 ≡ some alt')
    × (elem 30 alt'.guards_q ≡ true)
    × (alt_enable 30 s' ≡ fault dangling)
addguard_earlier_frees_example =
    addguard_earlier_frees store 20 31 30 {alt = two_guards} refl refl refl refl refl (omega arith)
      refl refl refl refl

timeout-disable_example :
    (s' : State) × (alt' : Alt) × (wakeup_guard 30 store ≡ ret tt s')
    × (s'.alts 20 ≡ some alt')
    × (alt'.winner ≡ some 30)
    × (s'.sched.ready_q ≡ 1 ∷ [])
    × (alt_disable 30 s' ≡ fault corrupt)
timeout-disable_example =
    timeout-disable store 30 {alt = two_guards} refl refl refl refl refl refl refl refl refl refl

-- The guard at 31, for 400, joins that at 30, for 500.
alt_disable-alt_enable_example :
    (s' : State) × (alt_enable 31 store ≡ ret false s')
    × (elem 31 s'.sched.altsleep_rb ≡ true)
    × (sorted_by (usec_at s') s'.sched.altsleep_rb ≡ true)
    × (alt_disable 31 s' ≡ ret tt store)
alt_disable-alt_enable_example =
    alt_disable-alt_enable store 31 refl refl refl refl refl refl refl refl refl (omega arith)
