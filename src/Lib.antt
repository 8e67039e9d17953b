-- ===== src/Lib.antt =====
-- A verification library of xv6 for RISC-V: models of the kernel's parts and what is proved of them.
--
-- The parts, and the files that model them:
--
-- - kernel/kalloc.c, the allocator of physical pages: Kalloc. The state is memory itself, as 64-bit
--   words by address, since the free list runs through the free pages, and the head of the list.
--   kinit, freerange, kfree and kalloc are functions on it; the end of the kernel is a parameter.
--   Kalloc/Chain and Kalloc/Range read the list off the memory.
-- - kernel/spinlock.c and kernel/sleeplock.c: Lock. A cpu is its interrupt bit with `noff` and
--   `intena`; acquire and release are cut at their accesses to the lock,
--   and holding, which reads two fields, is one step. Lock/Nesting has push_off
--   and pop_off, Lock/Spin and Lock/Sleep the interleavings of any number of cpus or processes.
-- - kernel/bio.c, the buffer cache: Bio, with `order` for the list through `next`. bread is bget and,
--   behind the acquiresleep, bread_locked.
-- - kernel/log.c, the journal: Log, over Buffers, which is what the callers of bio.c see of the cache
--   (the disk, what bread returns, the pins, and the disk after each write). Log/Recover and
--   Log/Commit are about power failures, Log/Absorb, Log/Reserve and Log/Safety about operations
--   that run at once; there end_op is cut where it gives up the lock to commit.
-- - kernel/fs.c, over the journal: Fs/Blocks has bzero, balloc and bfree, with Fs/Bits for the bits of
--   the free map; Fs/Inodes the table of inodes and the inodes of the disk; Fs/Content bmap, itrunc,
--   iput, readi and writei; Fs/Directory the entries of directories; Fs/Paths skipelem and namex. The
--   superblock is a parameter, and so are the bytes that a local variable has before it is set.
-- - kernel/sysfile.c: Fs/Links has what link, unlink and create do to the file system; Sysfile the
--   descriptors and the calls on paths, Sysfile/Open open and pipe. kernel/file.c: Files has filealloc,
--   filedup and fileclose, whose result of type Release is carried out in Sysfile; Sysfile/Io has
--   fileread, filewrite and filestat with their calls. The table devsw is a parameter.
-- - kernel/syscall.c and kernel/sysproc.c: Syscall, the arguments in the trapframe and user memory.
--   sys_sleep and sys_uptime are in Clock, with clockintr of kernel/trap.c.
-- - kernel/vm.c: Vm has page tables in the words of Kalloc and the copies to and from user memory;
--   Vm/Space what makes, grows, copies and frees an address space.
-- - kernel/pipe.c: Pipe, with the two wrapping counters; Pipe/Ring reads a queue off it,
--   Pipe/Transfer is about one call, Pipe/Stream about sequences of calls.
-- - kernel/proc.c: Proc, the process table, wakeup, kill, reparent, the end of exit, and the scheduler;
--   Proc/Schedule has the interleavings; Proc/Life allocproc, freeproc, fork, growproc and wait,
--   on the table together with memory, files and the file system; Exit the whole of exit,
--   Exit/Counts counts the references to files, and Exit/Family says what wait finds of it.
-- - kernel/string.c: Strings, over a memory of bytes.
-- - kernel/console.c: Console, the input ring with its three indices; Console/Input is about
--   consoleintr and consoleread.
-- - kernel/exec.c: Exec, from the ELF header to the commit, where each failure gives back what has been
--   taken; Exec/Commit is about the process table, and Exec/Call is sys_exec of kernel/sysfile.c.
-- - kernel/virtio_disk.c: Virtio. virtio_disk_rw is cut where it sleeps, so Virtio/Requests has requests,
--   interrupts and the device in any order; Virtio/Chains has the chains of descriptors.
-- - kernel/uart.c: Uart, with what the registers answer as an argument. kernel/printf.c: Printf, where the
--   output is the list of the characters.
-- - user/sh.c: Shell, the parser on addresses of the command line in memory; Shell/Tokens is about
--   gettoken, Shell/Parse and Shell/Grammar about the recursive descent, Shell/Words about the command.
-- - user/grep.c: Grep, the matcher, on strings as lists of characters; Grep/Matches says what a
--   pattern means.
-- - Base has what these share: bytes and little-endian fields (Base/Bytes), 32-bit arithmetic
--   (Base/Words), code that may halt the machine by panic (Base/Outcome), and code that may also have
--   to wait for a sleep-lock or for the log (Base/Run). Examples runs the theorems at concrete states.
--
-- Numbers are natural numbers; an `int` or `uint` that can wrap is its 32-bit pattern, and add32,
-- sub32 and lt_int write out what the machine does. Functions that sleep give up their lock only
-- there: each model runs from one such point to the next and returns `none`, or a result that says
-- so, where the code sleeps. A panic is a result. Loops are recursion on the number of rounds, or on
-- fuel: one round for each page in free_pages and mappages, for each character in strlen, for each
-- byte in readi, writei and the copies of vm.c, whose rounds take at least one, for each element of a
-- path in namex, for each entry of a directory, for each digit of a uint in base two in printint, for
-- each descriptor in free_chain, and one more to leave the loop where that takes one. The parser of
-- the shell takes four units for each byte of the line and six more.
--
-- Not modelled: traps but the clock interrupt, the dispatch of system calls, the page table of the
-- kernel, the set-up of the disk device, userinit, the user programs but the matcher of grep and
-- the parser of the shell, and mkfs. There is one disk. Memory is sequentially consistent, for which the kernel has its fences. A block is a function from offsets to bytes, of
-- which only the first BSIZE mean anything. User memory holds no page table and no buffer, and the
-- leaves of a page table are where the hardware looks for them, at the lowest of three levels.
pub mod Base
pub mod Kalloc
pub mod Buffers
pub mod Log
pub mod Vm
pub mod Syscall
pub mod Sysfile
pub mod Exec
pub mod Exit
pub mod Clock
pub mod Virtio
pub mod Uart
pub mod Printf
pub mod Shell
pub mod Pipe
pub mod Lock
pub mod Bio
pub mod Strings
pub mod Fs
pub mod Proc
pub mod Grep
pub mod Console
pub mod Files
pub mod Examples
