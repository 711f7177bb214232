-- ===== src/Csp.antt =====
-- csp.c: trees of PROC, PAR and SEQ.
pub mod Build
pub mod Finish
pub mod Insert
pub mod Start
pub mod Parts
pub mod Leaves
pub mod Standing
pub mod Cleanup
pub mod Resume
pub mod Join
pub mod Next
