-- ===== src/Proc/Life.antt =====
-- proc_create, proc_mainfxn and proc_free of proc.c. `mem` and `stack` are what malloc and
-- posix_memalign return, NULL or a failure being `none`, and `errno` is errno's value at that point.
use libproxc.Base.{ℕ, ◌≡◌, true, Option, none, some, []}
use libproxc.Platform.{Platform}
use libproxc.Platform.Links.{tailq_insert_tail, tailq_remove}
use libproxc.Store.{
  State, ret, ProcState, M, pure, ◌>>=◌, ◌>>◌, load_proc, put_proc, load_sched, put_sched,
}
use libproxc.Scheduler.Queues.{proc_self, proc_yield}
use libproxc.Csp.Finish.{csp_parsebuild}

-- What runs on the stack of a PROC: the body, then the end.
unfoldable pub proc_mainfxn : (body : M (Unit {0})) → (p : ℕ) → M (Unit {0})
unfolding proc_yield
proc_mainfxn body p = do
  body
  proc ← load_proc p
  put_proc p (some (record proc { state = ProcState.ended }))
  proc_yield

-- _trampoline of context.c, where proc_mainfxn would return to.
unfoldable pub trampoline : M (Unit {0})
unfolding proc_yield
trampoline = do
  self ← proc_self
  proc ← load_proc self
  put_proc self (some (record proc { state = ProcState.ended }))
  proc_yield

-- Where the body of the running PROC returns, the rest of proc_mainfxn does what _trampoline does.
pub mainfxn-eq_trampoline :
    (body : M (Unit {0})) (p : ℕ) (s s' : State)
    → body s ≡ ret tt s'
    → s'.sched.curr_proc ≡ some p
    → proc_mainfxn body p s ≡ trampoline s'
unfolding proc_mainfxn trampoline proc_yield proc_self
mainfxn-eq_trampoline body p s s' r current = rw (r, current)

module _ ⦃v : Platform⦄ where
  -- The returned code, and `*new_proc` where it is set.
  unfoldable pub proc_create : (mem stack : Option ℕ) (errno fxn : ℕ) → M (ℕ × Option ℕ)
  proc_create none stack errno fxn = pure (errno, none)
  proc_create (some p) none errno fxn = pure (errno, none)
  proc_create (some p) (some stack) errno fxn = do
    sched ← load_sched
    put_proc p (
        some (record {
          ctx_fresh = true;
          state = ProcState.ready;
          fxn = fxn;
          args = [];
          stack_ptr = stack;
          stack_size = sched.stack_size;
          stack_used = 0;
          sleep_us = 0;
          proc_build = none;
        }))
    q ← tailq_insert_tail sched.total_q p
    put_sched (record sched { total_q = q })
    pure (0, some p)

  unfoldable pub proc_free : (fuel : ℕ) → Option ℕ → M (Unit {0})
  unfolding csp_parsebuild
  proc_free fuel none = pure tt
  proc_free fuel (some p) = do
    proc ← load_proc p
    sched ← load_sched
    q ← tailq_remove sched.total_q p
    put_sched (record sched { total_q = q })
    elim proc.proc_build [ none ↦ pure tt | some b ↦ csp_parsebuild fuel b ]
    put_proc p none
