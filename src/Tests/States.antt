-- ===== src/Tests/States.antt =====
-- Concrete states.
use libproxc.Base.{ℕ, true, false, none, []}
use libproxc.Store.{State, Scheduler, Proc, ProcState, Alt, BuildType, Builder}

abbrev pub no_sched : Scheduler
no_sched = record {
  stack_size = 8192;
  page_size = 4096;
  is_exit = false;
  main_proc = none;
  curr_proc = none;
  total_q = [];
  ready_q = [];
  sleep_num = 0;
  sleep_rb = [];
  altsleep_num = 0;
  altsleep_rb = [];
}

abbrev pub no_state : State
no_state = record {
  procs = λ _. none;
  chans = λ _. none;
  ends = λ _. none;
  guards = λ _. none;
  alts = λ _. none;
  builds = λ _. none;
  bytes = λ _. 0;
  sched = no_sched;
}

abbrev pub a_proc : ProcState → Proc
a_proc state = record {
  ctx_fresh = true;
  state = state;
  fxn = 0;
  args = [];
  stack_ptr = 4096;
  stack_size = 8192;
  stack_used = 0;
  sleep_us = 0;
  proc_build = none;
}

abbrev pub an_alt : (p : ℕ) → Alt
an_alt p = record {
  key_count = 1;
  is_accepted = false;
  winner = none;
  ready_num = 0;
  ready_guards = none;
  guards_num = 1;
  guards_q = [];
  guard_time = none;
  proc = p;
}

abbrev pub a_build : BuildType → Builder
a_build type = record {
  type = type;
  parent = none;
  is_root = false;
  run_proc = none;
  proc = none;
  num_childs = 0;
  child_q = [];
  curr_build = none;
}
