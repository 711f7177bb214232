-- ===== src/Alt.antt =====
-- alt.c: ALT, a choice between guards.
pub mod Accept
pub mod Guards
pub mod Select
pub mod Winner
pub mod Keys
pub mod Freed
pub mod Timeout
pub mod Pending
pub mod Queues
pub mod Leave
pub mod Rendezvous
pub mod Offers
pub mod Ready
pub mod Unready
pub mod Taken
pub mod Numbered
