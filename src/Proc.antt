-- ===== src/Proc.antt =====
-- proc.c: PROCs, their arguments and their end. proc_self and proc_yield stand in Scheduler/Queues.
pub mod Args
pub mod Life
pub mod Release
pub mod Owned
