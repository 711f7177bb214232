-- ===== src/Context.antt =====
-- ctx_madvise of context.c. The context switch itself is assembly, or the C library's; what it does to
-- a PROC is in Store/Monad and Scheduler/Loop.
pub mod Machine
pub mod Switch
pub mod Switched
pub mod Returns
pub mod Fresh
pub mod I386
pub mod Ucontext
use libproxc.Base.{ℕ, ◌+◌, ◌-◌, ◌^◌, Bool, some, ltb, if◌then◌else◌}
use Prim.Native.Nat.{bit_and}
use libproxc.Store.{panic, M, pure, ◌>>=◌, ◌>>◌, assert, load_proc, put_proc, load_sched}
use libproxc.Scheduler.Sleep.{u64}

-- x & ~(page_size - 1)
unfoldable pub page_floor : (page_size x : ℕ) → ℕ
page_floor page_size x = bit_and x (2 ^ 64 - 1 - (page_size - 1))

-- The stack that is in use below the stack pointer `sp`, which is not under the stack's end.
abbrev pub used_stack : (stack_ptr stack_size sp : ℕ) → ℕ
used_stack stack_ptr stack_size sp = u64 (stack_size + 2 ^ 64 - (sp - stack_ptr))

-- Whether the pages that have come out of use are given back.
unfoldable pub gives_back : (page_size used before : ℕ) → Bool
unfolding page_floor
gives_back page_size used before =
    ltb (u64 (page_floor page_size used + page_size)) (page_floor page_size before)

-- `sp` is the stack pointer in the saved context; `madvise_ok` tells whether madvise succeeds, which
-- has no other effect on the model.
unfoldable pub ctx_madvise : (sp : ℕ) (madvise_ok : Bool) (p : ℕ) → M (Unit {0})
unfolding gives_back
ctx_madvise sp madvise_ok p = do
  proc ← load_proc p
  if ltb sp proc.stack_ptr then panic else do
    let used = used_stack proc.stack_ptr proc.stack_size sp
    sched ← load_sched
    (if gives_back sched.page_size used proc.stack_used then assert madvise_ok else pure tt)
    put_proc p (some (record proc { stack_used = used }))
