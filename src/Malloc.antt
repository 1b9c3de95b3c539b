-- ===== src/Malloc.antt =====
-- The debugging allocator of pset1/m61.c.
pub mod Block
pub mod HeavyHitters
pub mod Allocator
