-- ===== src/Lib.antt =====
-- This library models the C programs of the repository's problem sets and proves what makes
-- their parts correct.
--
-- Shell (pset5). Shell/Lexer is `parse_shell_token` of pset5/helpers.c over lists of bytes: the
-- rest of a list is the pointer that the source returns, and `none` its NULL. Shell/CommandList
-- is `struct command` and the loop of `eval_line` of pset5/sh61.c, which calls the tokenizer
-- until it returns NULL. That loop runs on fuel, the length of the line and one round more,
-- since every token takes at least one byte. Shell/System has the system calls of a process as
-- a tree, with a branch for each result and both processes of a fork; Shell/Run,
-- Shell/Pipeline, Shell/Redirect and Shell/RunList are `run_list` with `start_command` as
-- functions to that tree, from a list of commands whose rest is `next`. The loop runs on fuel,
-- a round for each command and one more, which is enough since every round takes a command at
-- least. Shell/Behaviour runs a tree on a system where each fork succeeds, the programs that
-- can be executed end with given statuses, and each child runs to its end when it is forked.
-- Shell/Wiring follows the open descriptors of the processes in a tree, where only a `dup2` or
-- a `close` can fail. Shell/Main is the loop of `main` with `fgets` over the bytes of the file,
-- where a parameter tells the lines behind which `eval_line` returns; its fuel is a round for
-- each byte, one for each call that is interrupted, and one more.
--
-- Malloc (pset1). Malloc/Block has the metadata in front of a block, the buffers behind it, and
-- 64-bit arithmetic; Malloc/HeavyHitters is the sampling of pset1/m61.c with its bubble sort;
-- Malloc/Allocator has `m61_malloc`, `m61_free`, `m61_realloc`, `m61_calloc` and the leak
-- report, each a function from the state of the globals and the memory to the next one. Memory
-- is typed: a header and a pair of buffers are read at the addresses at which they are written.
-- What the base allocator returns is an argument of each call, and a header that `m61_free` has
-- handed to `free` is taken as unchanged. The bytes of the payloads are a function of their
-- own, which `m61_realloc` copies. Walks of the block list take fuel; the number of active
-- blocks is enough.
--
-- Kernel (pset4). Kernel/Pages is the physical page table of pset4/kernel.c with
-- `use_any_physical_page`, whose loop takes 513 rounds at most, and `assign_physical_page`;
-- Kernel/Paging is `virtual_memory_map` and `virtual_memory_lookup` of pset4/k-hardware.c on
-- the entries of all page tables; Kernel/Digits is `fill_numbuf` of pset4/lib.c, whose fuel is
-- the number of digits that fit; Kernel/Memory is `memmove`, `memset` and the loop of `memcpy`
-- of pset4/lib.c; Kernel/Format and Kernel/Printf are `printer_vprintf`, whose fuel is a round
-- for each byte of the format and one for its end, with Kernel/Strings; Kernel/Snprintf and
-- Kernel/Console are `vsnprintf` and `console_vprintf` with their functions for a byte;
-- Kernel/Process is the process table with `sys_exit`; Kernel/Setup is `setup_pagetable` and
-- `process_setup`, and Kernel/Fork is `fork`, where a fault or a failed assertion is a value;
-- Kernel/Loader is `program_load` of pset4/k-loader.c, which `process_setup` has as a
-- parameter; Kernel/Start is `virtual_memory_init` and `kernel`, which sets up the programs and
-- runs the first; Kernel/Check is `check_virtual_memory` as a test; Kernel/Exception is
-- `exception` with the system calls and `run`; Kernel/Schedule is `schedule`, with the number
-- of rounds as fuel.
--
-- Io61 (pset3). Io61/System has `struct io61_file` of pset3/io61.c and the system calls read,
-- write and lseek as a record, with records of what a regular file does; Io61/Read, Io61/Write
-- and Io61/Seek are the operations, each from a file to its result and the file after it. The
-- loops run on fuel: a round of `io61_read` returns a byte or takes one from the file, and a
-- round of `io61_write` takes a byte.
--
-- Pong (pset6). Pong/Ball is the position of the ball in `main` of pset6/pong61.c;
-- Pong/Response is the parser of a response over the bytes of `buf`, and the loops of
-- `http_receive_response_headers` and `http_receive_response_body` over the results of their
-- reads; Pong/Table is `persistent_connect` over the list of connections, the writes of
-- `http_send_request`, and the retries of `pong_thread`. Without a further result a loop of
-- reads waits.
--
-- Base has the names that all parts share, Boolean tests and list lemmas.
--
-- Not modelled are the programs' messages, assembly and hardware registers, and the signals,
-- the options and the reaping of pset5/sh61.c; and the drivers and tests beside the programs.
pub mod Base
pub mod Shell
pub mod Malloc
pub mod Kernel
pub mod Io61
pub mod Pong
