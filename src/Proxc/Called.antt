-- ===== src/Proxc/Called.antt =====
-- PROC and ARGN: a PROC gets the arguments that it was made with.
use libproxc.Base.{ℕ, some, List, update}
use libproxc.Platform.{Platform}
use libproxc.Store.{State, Proc, proc_build}
use libproxc.Proc.Release.{fresh_proc, created}
use libproxc.Proxc.Made.{blank_build}

-- The PROC that PROC makes.
abbrev pub made_proc : (stack fxn stack_size b : ℕ) → List ℕ → Proc
made_proc stack fxn stack_size b args = record (fresh_proc stack fxn stack_size) {
  args = args;
  proc_build = some b;
}

module _ ⦃v : Platform⦄ where
  -- The store in which the PROC and its builder have been allocated.
  abbrev made_store : State → (p stack b fxn : ℕ) → State
  made_store s p stack b fxn = record (created s p (fresh_proc stack fxn s.sched.stack_size)) {
    builds = update s.builds b (some (blank_build proc_build));
  }

  -- The store in which the two, the PROC being `proc`, know of each other.
  abbrev called_store : State → (p b : ℕ) → Proc → State
  called_store s p b proc = record s {
    procs = update s.procs p (some (record proc { proc_build = some b }));
    builds = update s.builds b (some (record (blank_build proc_build) { proc = some p }));
  }
