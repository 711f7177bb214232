-- ===== src/Scheduler/Queues.antt =====
-- The ready queue, and the PROC that runs: scheduler_create, scheduler_addready and
-- scheduler_remready of scheduler.c, proc_self and proc_yield of proc.c.
pub mod Fifo
pub mod Many
pub mod Yield
use libproxc.Base.{ℕ, false, none, some, []}
use libproxc.Platform.{Platform}
use libproxc.Platform.Links.{tailq_insert_tail, tailq_remove}
use libproxc.Store.{
  Scheduler, ProcState, ret, yielded, M, ◌>>=◌, ◌>>◌, assert_notnull, load_proc, put_proc,
  load_sched, put_sched,
}

-- MAX_STACK_SIZE
abbrev pub max_stack_size : ℕ
max_stack_size = 8192

-- The scheduler that `scheduler_create` sets up; `curr_proc` and `main_proc`, which it leaves as
-- malloc gave them, are NULL here. `page_size` is that of the system.
unfoldable pub new_scheduler : (page_size : ℕ) → Scheduler
new_scheduler page_size = record {
  stack_size = max_stack_size;
  page_size = page_size;
  is_exit = false;
  main_proc = none;
  curr_proc = none;
  total_q = [];
  ready_q = [];
  sleep_num = 0;
  sleep_rb = [];
  altsleep_num = 0;
  altsleep_rb = [];
}

unfoldable pub proc_self : M ℕ
proc_self = do sched ← load_sched; assert_notnull sched.curr_proc

-- The PROC's context is saved and the scheduler's is resumed, until the scheduler switches back.
-- The argument only selects the scheduler.
unfoldable pub proc_yield : M (Unit {0})
unfolding proc_self
proc_yield = do proc_self; (λ s. yielded s (λ s'. ret tt s'))

module _ ⦃v : Platform⦄ where
  unfoldable pub scheduler_addready : ℕ → M (Unit {0})
  scheduler_addready p = do
    proc ← load_proc p
    put_proc p (some (record proc { state = ProcState.ready }))
    sched ← load_sched
    q ← tailq_insert_tail sched.ready_q p
    put_sched (record sched { ready_q = q })

  unfoldable pub scheduler_remready : ℕ → M (Unit {0})
  scheduler_remready p = do
    load_proc p
    sched ← load_sched
    q ← tailq_remove sched.ready_q p
    put_sched (record sched { ready_q = q })
