-- ===== src/Chan.antt =====
-- chan.c: synchronous channels.
pub mod Copy
pub mod Ops
pub mod Read
pub mod Rendezvous
pub mod Invariant
pub mod Keeps
pub mod Write
pub mod Guarded
pub mod System
