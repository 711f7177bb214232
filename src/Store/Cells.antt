-- ===== src/Store/Cells.antt =====
-- Reading and writing a struct through its address.
use libproxc.Base.{ℕ, Option, none, some, update}
use libproxc.Store.Types.{Proc, Chan, ChanEnd, Guard, Alt, Builder, Scheduler}
use libproxc.Store.Monad.{ret, fault, dangling, assert_failed, M}

abbrev pub deref : {A : Type 0} → Option A → M A
deref none s = fault dangling
deref (some a) s = ret a s

-- ASSERT_NOTNULL, and the pointer.
abbrev pub assert_notnull : {A : Type 0} → Option A → M A
assert_notnull none s = fault assert_failed
assert_notnull (some a) s = ret a s

abbrev pub load_proc : ℕ → M Proc
load_proc p s = deref (s.procs p) s

abbrev pub load_chan : ℕ → M Chan
load_chan p s = deref (s.chans p) s

abbrev pub load_end : ℕ → M ChanEnd
load_end p s = deref (s.ends p) s

abbrev pub load_guard : ℕ → M Guard
load_guard p s = deref (s.guards p) s

abbrev pub load_alt : ℕ → M Alt
load_alt p s = deref (s.alts p) s

abbrev pub load_build : ℕ → M Builder
load_build p s = deref (s.builds p) s

abbrev pub load_sched : M Scheduler
load_sched s = ret s.sched s

-- `some v` writes the struct, `none` frees it.
abbrev pub put_proc : ℕ → Option Proc → M (Unit {0})
put_proc p v s = ret tt (record s { procs = update s.procs p v })

abbrev pub put_chan : ℕ → Option Chan → M (Unit {0})
put_chan p v s = ret tt (record s { chans = update s.chans p v })

abbrev pub put_end : ℕ → Option ChanEnd → M (Unit {0})
put_end p v s = ret tt (record s { ends = update s.ends p v })

abbrev pub put_guard : ℕ → Option Guard → M (Unit {0})
put_guard p v s = ret tt (record s { guards = update s.guards p v })

abbrev pub put_alt : ℕ → Option Alt → M (Unit {0})
put_alt p v s = ret tt (record s { alts = update s.alts p v })

abbrev pub put_build : ℕ → Option Builder → M (Unit {0})
put_build p v s = ret tt (record s { builds = update s.builds p v })

abbrev pub put_sched : Scheduler → M (Unit {0})
put_sched v s = ret tt (record s { sched = v })

abbrev pub put_bytes : (ℕ → ℕ) → M (Unit {0})
put_bytes v s = ret tt (record s { bytes = v })
