-- ===== src/Kernel.antt =====
-- The kernel of pset4: physical pages and processes.
pub mod Pages
pub mod Schedule
pub mod Paging
pub mod Memory
pub mod Digits
pub mod Process
pub mod Setup
pub mod Fork
pub mod Check
pub mod Exception
pub mod Strings
pub mod Format
pub mod Printf
pub mod Snprintf
pub mod Console
pub mod Loader
pub mod Start
