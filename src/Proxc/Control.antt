-- ===== src/Proxc/Control.antt =====
-- proxc_exit, proxc_yield and proxc_sleep of proxc.c. `now` is what gettimestamp returns.
use libproxc.Base.{ℕ, ◌+◌, true, some, ltb, if◌then◌else◌}
use libproxc.Platform.{Platform}
use libproxc.Store.{M, pure, ◌>>=◌, ◌>>◌, load_proc, put_proc, load_sched, put_sched}
use libproxc.Scheduler.Queues.{proc_self, proc_yield}
use libproxc.Scheduler.Sleep.{u64, scheduler_addsleep}

unfoldable pub proxc_exit : M (Unit {0})
unfolding proc_yield
proxc_exit = do sched ← load_sched; put_sched (record sched { is_exit = true }); proc_yield

unfoldable pub proxc_yield : M (Unit {0})
unfolding proc_yield
proxc_yield = proc_yield

module _ ⦃v : Platform⦄ where
  unfoldable pub proxc_sleep : (usec now : ℕ) → M (Unit {0})
  unfolding proc_self proc_yield scheduler_addsleep
  proxc_sleep usec now = do
    self ← proc_self
    (if ltb 0 usec
        then (do
          proc ← load_proc self
          put_proc self (some (record proc { sleep_us = u64 (now + usec) }))
          scheduler_addsleep self)
        else pure tt)
    proc_yield
    proc ← load_proc self
    put_proc self (some (record proc { sleep_us = 0 }))
