-- ===== src/Lib.antt =====
-- WinuxOS: a small kernel for x86 in C. It has threads with round-robin scheduling and locks, a
-- memory manager with page pools and a heap, user processes, drivers for IDE disks, the keyboard, the
-- clock and the screen, formatted output, and a file system with one directory.
--
-- The parts, from below:
--
-- - lib/kernel/bitmap.c keeps the free units of the page pools, of the virtual addresses and of the
--   file system. Bitmap.antt has `bitmap_init` as `init`, `bitmap_scan_test` as `scan_test`,
--   `bitmap_set` as `set` and `bitmap_scan` as `scan`, its loops as functions of their own.
-- - lib/kernel/list.c: LinkedList.antt has the links in memory and the operations on them;
--   LinkedList/Chain.antt says which sequence a list represents. Everywhere else a list is its
--   sequence.
-- - kernel/interrupt.c: Interrupt.antt has the interrupt flag and the interrupt descriptor table,
--   Interrupt/Message.antt the names of the exceptions and what is shown for one.
-- - thread/thread.c and the clock handler of device/time.c: Thread.antt has the ready list, the
--   statuses and the time slices of all threads in the record `Threads`, and one function for each
--   operation (`schedule`, `thread_block` as `block`, `thread_unblock` as `unblock`, `thread_yield`
--   as `yield`, `intr_time_handle` as `tick`, `thread_start` as `start`). Thread/Start.antt has the
--   blocks that `init_thread` fills, the pids and `thread_init`. thread/sync.c is
--   Thread/Sync.antt, and Thread/Interleave.antt has the steps of several threads around one lock.
-- - lib/kernel/memory.c: Memory.antt and Memory/Alloc.antt have the pools, the page tables and the
--   functions that take and give back pages; Memory/Heap.antt has `sys_malloc` and `sys_free`, and
--   Memory/Heap/Books.antt the books of the whole heap: which blocks are free and which are held.
-- - lib/kernel/string.c: Str.antt. lib/stdio.c and lib/kernel/stdio_kernel.c: Stdio.antt, which
--   writes with the functions of Str.antt into a buffer; Stdio/Render.antt says what a format means.
-- - userprog/tss.c: Userprog/Tss.antt. userprog/process.c and `thread_create`: Userprog/Process.antt,
--   on the pools and page tables of Memory.antt. userprog/syscall_init.c and lib/user/syscall.c:
--   Userprog/Syscall.antt.
-- - device/ide.c: Device/Ide.antt has the registers, the commands and the loops of `ide_read` and
--   `ide_write`, Device/Ide/Wait.antt `busy_wait`, Device/Ide/Identify.antt `identify_disk`, Device/Partition.antt
--   `partition_scan`, which follows the partition tables of a disk, and Device/Controllers.antt `ide_int`. device/ioqueue.c: Device/Queue.antt. device/keyboard.c: Device/Keyboard.antt,
--   which puts the characters into that ring buffer. device/time.c: Device/Clock.antt.
--   device/console.c: Device/Console.antt.
-- - fs/: Fs.antt has the records for the structures on the disk and in memory and the state
--   `FileSystem`. Fs/Format.antt is `partition_format` and `mount_partition`, Fs/Search.antt the search over the
--   disks in `filesys_init`, Fs/Boot.antt the rest of it, Fs/InodeTable.antt is
--   fs/inode.c, Fs/Files.antt, Fs/Write.antt and Fs/Read.antt are fs/file.c, Fs/Directory.antt is fs/dir.c with
--   `search_file`, Fs/Open.antt is the rest of fs/fs.c. Fs/Words.antt stores 32-bit words as bytes.
--
-- Base.antt has what the parts share: numbers, Boolean tests, memory as a function from offsets,
-- bits of bytes, and `Outcome`, what a function of the kernel does: it returns (`ok`), it stops in a
-- failed ASSERT, a PANIC or a write through NULL (`panic`), or it would have to wait (`blocked`).
--
-- How the code is rendered. A uint32_t is a natural number with its wrap-around written out. A
-- pointer to an object is a number, NULL and the result -1 are `none`. Sections that run with the
-- interrupts off are one step. A disk is its sectors: the controller is the environment, which
-- carries out the command in the registers and raises its interrupt, and the file system uses the
-- disk by whole sectors, as the transfers of Device/Ide do. That a sector lies behind the end of the
-- disk is part of the model where an inode is opened (`disk_sects`); elsewhere the theorems on the
-- layout take partitions that end at or before sector 2^28, the most that a command can address.
-- Whether `partition_format` gets its buffer is a parameter. Which calls of `sys_malloc` get memory
-- is part of the file system's state (`grants`), what uninitialised memory holds is a parameter
-- (`junk`).
--
-- Fuel. A loop over a string takes fuel, and any number greater than the string's length is enough;
-- a loop over a list takes one step more than the list has elements, a loop over a format one more
-- than its characters, its longest string and 32 digits together, and sleeping one step for each test;
-- the loops of `file_write` and `file_read` run on the number of bytes, since every round moves one at
-- least; `partition_scan` runs on the depth to which partition tables are linked, which the disk alone
-- bounds; the disk transfers run on the number of sectors for the same reason. All other loops count down a
-- bound that the code has itself.
--
-- Not modelled: the assembly (the boot loader, interrupt entry, `switch_to`, the system call gate; of its
-- call through the table Userprog/Syscall/Calls.antt has what kernel/kernel.s documents), the start of
-- the kernel in kernel/init.c and kernel/main.c, which calls the parts in turn, what is shown on the
-- screen while it starts, and the TLB.
pub mod Base
pub mod Bitmap
pub mod Interrupt
pub mod Thread
pub mod LinkedList
pub mod Memory
pub mod Device
pub mod Str
pub mod Stdio
pub mod Userprog
pub mod Fs
