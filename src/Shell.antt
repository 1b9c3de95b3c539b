-- ===== src/Shell.antt =====
-- The shell sh61: the tokenizer and the string builder of pset5/helpers.c, and the command lists
-- of pset5/sh61.c with their execution, and the loop of `main`.
pub mod Lexer
pub mod CommandList
pub mod System
pub mod Run
pub mod Finishes
pub mod Pipeline
pub mod Redirect
pub mod RunList
pub mod Behaviour
pub mod Wiring
pub mod Main
