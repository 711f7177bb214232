-- ===== src/Proxc.antt =====
-- proxc.c, the interface of the library.
pub mod Trees
pub mod Unmade
pub mod Made
pub mod Run
pub mod Begun
pub mod Family
pub mod Joined
pub mod Current
pub mod InTurn
pub mod Sleeping
pub mod Macros
pub mod Called
pub mod Choice
pub mod Control
