-- ===== src/Lib.antt =====
-- xv6 with kernel threads, mutexes and copy-on-write: a model of the kernel's core and of parts of the
-- programs that run on it: the firing squad, the parser of the shell, and grep.
--
-- The kernel keeps tables of processes, threads, mutexes, files and buffers under spinlocks; user
-- programs reach them by system calls. What a thread does while it holds a component's spinlock is
-- one step of a model: a pass runs from the call, or from the place where a `sleep` gave the lock
-- up, to the next `sleep` or the return. A function that can panic has a result that says so.
--
-- Prelude (Tests, Lists, Word, Family, Window): shared tests, lists over the native numbers, words as
--   numbers below 2 ^ 32 with the wrap-around written out, families by thread, and windows of rings.
-- Mutex: mutex.c and mutex.h, the table of 64 mutexes with kthread_mutex_alloc, _dealloc, _lock and
--   _unlock. Mutex.System has the threads that use it as a step relation, with `sleep` and `wakeup`
--   of proc.c; Slot and Effect say what each operation does to one slot; Balance and Wakeup are
--   about all histories.
-- Fssp: fssp.c. Automaton is the transition table, a soldier's step and the loop of `main`; Barrier
--   is `inc_barrier` by any number of threads, over two mutexes, each locked or not.
-- Kalloc: kalloc.c, with the address arithmetic of memlayout.h and mmu.h. The free list is a list of
--   addresses. The end of the kernel image is a parameter. `freerange` has fuel for every page of
--   the address space.
-- Vm: vm.c. Page tables by their directories; Vm.Cow is copy-on-write on top of them: the sharing by
--   `cow_shareuvm`, the fault handler `cow_copyuvm`, and `cow_deallocuvm`, whose loop is on a fuel
--   that the caller gives. The counters of pages are far below 2 ^ 31 in a machine of this size, and
--   where a theorem needs it, it says so. Vm.Cow.Alias is about who may write a page, Vm.Cow.Handled
--   about what processes see of a fault.
-- Pipe: pipe.c, the ring of 512 bytes with its two counters modulo 2 ^ 32.
-- Log: log.c. The disk and the buffer cache are functions from block numbers; a power counter stands
--   for a crash between two disk writes, of which each is atomic, as the disk promises.
-- PathName: `skipelem` of fs.c, on a path as the list of its bytes up to the nul.
-- Bio: bio.c, the buffers in the order of their use, without their data.
-- Syscall: syscall.c, how a call fetches its arguments from the memory of the process.
-- Bytes: string.c, on a memory that is a function from addresses to bytes. `memset` is left out, since
--   it is two assembly instructions. The fuel of `strlen` bounds the length of the string.
-- Files: file.c, and from sysfile.c and proc.c the calls that keep file descriptors: `sys_dup` and
--   `sys_close` (`dup_begin`, `dup_end`, `close_begin`, `close_end`), `sys_open` from `filealloc` on,
--   and the loops of `fork` and `exit`. Exact has their histories: `dup` and `close` in two steps, the
--   others in one, by one thread of a process at a time.
-- Proc: proc.c, kthread.c and `wait_before_exec` of exec.c. A table of 64 processes with 16 threads
--   each; Calls has what a running thread does to it. Inv, Keeps, Forks, Exits, Waits and Threads
--   show an invariant of all histories, which System takes as steps of one CPU: there, a thread
--   that `exit` marks is not running elsewhere. Reaping and Exec are about single passes of `wait`
--   and of `wait_before_exec`.
-- Disk: fs.c, the blocks of the file system with `balloc` and `bfree` on the bits of the free map. The
--   blocks are those that a transaction sees through the buffers.
-- Inode: fs.c, the cache of 50 inodes with their references and locks.
-- Content: fs.c, the contents of a file with `bmap`, `readi` and `writei`. Refs numbers the blocks that
--   an inode refers to and says when a file is sound; Maps and Bmap are about `bmap`, Put about a
--   write into a block, Read and Write about the loops, and Back about both. The loops have fuel for
--   one byte a round. Trunc is `itrunc`. What the log answers to each `log_write` of
--   `writei` is an argument; for what `balloc` and `bfree` log it is taken to have room.
-- Vm.User: vm.c, the memory of a process, with `copyout` (Copy, Rounds, Written) on fuel for a byte a
--   round, `deallocuvm` (Free) on fuel for every page below KERNBASE, and `clearpteu` (Guard).
-- Spin: spinlock.c. Nested has `pushcli` and `popcli` in any order, Lock a processor with a lock, and
--   what it and others do until its release.
-- Ide: ide.c, the queue of disk requests. What the disk returns is an argument of the interrupt.
-- Console: console.c, the line that is being typed. Ring has the bytes of the buffer, Keys the line
--   discipline on lists, Store and Line follow `consoleintr`, Reader `consoleread`, and Flow both in
--   any order. `C('U')` has fuel for the length of the buffer. A typed character is a byte.
-- Grep: grep.c. Match has the language of a pattern, Words the matcher, Lines the loop over the input
--   in the pieces that `read` returns.
-- Shell: sh.c, from `gettoken` to `parsecmd`. A line is a list of bytes. Total is about the end of the
--   parser, on fuel of four calls for a byte; Print has trees and how they are written, and Words,
--   Redirs, Args, Exec, Steps and Back read them back.
-- Dir: fs.c, directories with `namecmp` and `dirlookup`, on the contents of files.
--
-- Not modelled: most device drivers, boot and assembly (hardware access); the device branches of
-- `readi` and `writei`; `dirlink`, and paths but for `skipelem`; the loading of a program by `exec`;
-- most system call handlers; and the user programs but fssp.c, the parser of sh.c and grep.c. Of vm.c,
-- `allocuvm`, `copyuvm`, `setupkvm`, `freevm` and the switch of page tables are left out.
pub mod Prelude
pub mod Mutex
pub mod Fssp
pub mod Kalloc
pub mod Vm
pub mod Pipe
pub mod Log
pub mod Bytes
pub mod Files
pub mod Console
pub mod Shell
pub mod Grep
pub mod Spin
pub mod Ide
pub mod Syscall
pub mod Bio
pub mod PathName
pub mod Proc
pub mod Inode
pub mod Content
pub mod Dir
pub mod Disk
