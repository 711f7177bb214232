-- ===== src/Scheduler/Queues/Yield.antt =====
-- proc_yield by the running PROC.
use libproxc.Base.{ℕ, ◌≡◌, ap, Option, some}
use libproxc.Store.{State, ret, yielded, bind_run, assert_notnull}
use libproxc.Scheduler.Queues.{proc_self, proc_yield}

pub yield-from :
    (s : State) {p : ℕ} → s.sched.curr_proc ≡ some p → proc_yield s ≡ yielded s (λ s'. ret tt s')
unfolding proc_yield proc_self
yield-from s curr =
    ap (λ (o : Option ℕ). bind_run (assert_notnull o s) (λ _ s'. yielded s' (λ s''. ret tt s'')))
      curr
