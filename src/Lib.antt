-- ===== src/Lib.antt =====
-- libproxc: communicating sequential processes in C, on one thread.
--
-- The library runs PROCs (coroutines with their own stack) under a scheduler. PROCs communicate
-- over synchronous channels, choose among channels and timeouts with an alternation (ALT), sleep,
-- and are composed into trees of PAR and SEQ, which RUN waits for and GO does not. This development
-- is a model of the C code, function by function, with theorems on it.
--
-- Model. The memory is a store with one map from addresses to structs for each type of struct;
-- freed or unallocated memory is `none` there, and the use of it, or of NULL, is the fault
-- `dangling`. A pointer that the code tests against NULL is an Option. A failed ASSERT and a PANIC
-- are faults too (the model is that of a build without NDEBUG). A function is a run of a small
-- monad (Store/Monad) that returns, faults or yields: a yield is proc_yield, where the context of a
-- PROC is saved, and what is left of the run is that context. The scheduler's loop resumes it.
-- size_t and uint64_t counters wrap at 2^64.
--
-- The parts:
-- Store: the structs (src/internal.h, src/proc.h, src/scheduler.h, src/chan.h, src/alt.h,
--   src/csp.h) and the monad, with the assertions and PANIC of src/util/debug.h.
-- Platform: src/util/queue.h and src/util/tree.h, which are copies of BSD headers, and memcpy, as
--   an interface with laws. To link a node twice or to unlink one that is not linked is outside
--   what they document, and is the fault `corrupt` (Platform/Links). Platform/Model shows that the
--   laws can hold.
-- Scheduler: src/scheduler.c. Queues has the ready queue and the running PROC, Sleep the two trees
--   of sleepers, Wakeup _scheduler_wakeup and _scheduler_checkQs, Clock gettimestamp of
--   src/util/util.h, Create scheduler_create and scheduler_self for several threads, Loop
--   scheduler_run, scheduler_free and proxc_start; below it, Turns, Fair, Stuck, Emptied and Exit
--   are proofs.
-- Context: src/context.c. Machine has registers, memory by words and the instructions used, Switch
--   _ctx_get, ctx_switch and ctx_init for x86-64, I386 the same for i386, Ucontext the version on
--   the C library, and Context itself ctx_madvise; the other files are proofs. The other parts use
--   of a context only that a PROC that is switched to goes on.
-- Proc: src/proc.c. Args has proc_setargs, Life proc_create, proc_mainfxn and proc_free; Release
--   and Owned are proofs on proc_free, Owned for a PROC that GO has started, which scheduler_free
--   meets.
-- Csp: src/csp.c. Build makes and starts a tree, Finish ends a part of it; the other files are
--   proofs: Insert, Parts and Start those on a tree that is made and started, Leaves on a PAR of
--   PROCs, Standing, Cleanup, Resume, Join and Next those on the ends of its parts.
-- Chan: src/chan.c. Copy has _chan_copydata, Ops the operations; the other files are proofs, System
--   those on all channels at once.
-- Alt: src/alt.c. Accept has alt_accept, which the channels and the scheduler call, Guards the
--   guards and their alternation, Select the waiting and the choice; the other files are proofs:
--   Queues, Leave, Offers, Ready and Unready those on the loops of alt_select, Rendezvous and Taken
--   those on all of it, Numbered that on the keys, and Pending that on time guards.
-- Proxc: src/proxc.c, the functions and macros' targets that programs call, over all other parts;
--   Macros has the macros of src/proxc.h. Made, Run, Begun, Family, Joined, Current and InTurn are
--   the proofs on trees, from PAR and SEQ to the return of RUN, Called those on PROC and ARGN,
--   Sleeping those on SLEEP.
-- Tests: a whole program run by evaluation, and the theorems at concrete inputs.
-- Base: names of the library, Boolean tests, lists and maps.
--
-- The scheduler resumes PROCs, PROCs call Chan, Alt and Proxc, these change the queues of the
-- scheduler, and the end of a PROC goes to Csp, which makes the next PROCs ready.
--
-- Bounds and fuel. The loops of _scheduler_wakeup and of csp_cleanupbuild take a node off a list in
-- each round and get its length as fuel. The recursion of csp.c follows pointers and is bounded by
-- fuel; running out is the fault `out_of_fuel`. A tree of depth d is started with fuel d, and
-- scheduler_free has a round for each PROC. The main loop has a list of clock readings, one for a
-- round, and ends with `out_of_fuel` if they do not last.
--
-- Not modelled: usleep and the debug output. Of several threads only Scheduler/Create knows, with
-- what it relies on of pthread as an interface with laws; all else is about the one scheduler of a
-- thread, which shares nothing with the others. The ucontext version of src/context.c is modelled
-- on an interface to the C library. malloc, calloc, realloc, posix_memalign, madvise, rand and
-- gettimeofday are parameters that give the call's result. Variable arguments are lists up to their
-- terminator. The link fields of structs are part of the lists. src/test has programs that use the
-- library.
pub mod Alt
pub mod Base
pub mod Chan
pub mod Context
pub mod Csp
pub mod Platform
pub mod Proc
pub mod Proxc
pub mod Scheduler
pub mod Store
mod Tests
