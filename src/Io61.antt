-- ===== src/Io61.antt =====
-- The buffered input and output of pset3/io61.c: the struct, its reads and its writes.
pub mod System
pub mod Read
pub mod Write
pub mod Seek
