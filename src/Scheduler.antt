-- ===== src/Scheduler.antt =====
-- scheduler.c: the queues of PROCs, the trees of sleepers, and the loop that runs PROCs.
pub mod Queues
pub mod Sleep
pub mod Clock
pub mod Create
pub mod Wakeup
pub mod Loop
