-- ===== src/Tests.antt =====
-- Programs run by evaluation, and the theorems at concrete inputs.
mod States
mod Programs
mod Channels
mod Parts
mod Rounds
mod Systems
mod Selections
mod Joins
mod Contexts
mod Alternations
mod Trees
mod Sleeps
mod Threads
