-- ===== src/Lib.antt =====
-- A model of the RISC-V teaching kernel of this repository, with the theorems about its parts.
--
-- The kernel is C without threads of its own: one CPU runs processes that give it up in `swtch`. A
-- function of the kernel is modelled as a function from the state that it uses to an outcome: it returns
-- with a new state, stops the machine in `panic`, or spins for ever, `hang` (Common/Outcome.antt). An
-- `int` or `uint32_t` is its 32-bit pattern, with the wrap-around written out (Common/Word.antt).
-- A pointer into a static table is the index of its entry.
--
-- Storage: kernel/bio.c is Storage/Bio.antt (`binit`, `bget`, `bread`, `bwrite`, `brelse`), and
--   kernel/log.c is Storage/Log.antt (`init_log`, `begin_op`, `log_write`, `end_op`, `commit`). The
--   cache's linked list is the sequence of its buffers. The disk of kernel/virtio_disk.c is an image and
--   the list of the writes completed since, newest first, so that a power failure is a cut of that list.
--   The children of Bio and Log hold the invariant of the cache, the writes that a commit sends, the
--   points at which it can be cut, and recovery; a request has completed when it returns, so that the wait for a device that never answers is
--   only in the driver. kernel/virtio_disk.c is Storage/Virtio.antt: the
--   descriptors and rings of a request, and the handshake with the registers (Virtio/Handshake), over a device
--   that is a parameter.
-- FileSystem: kernel/fs.c over the storage (Blocks: the bitmap; Inodes; Content: `bmap`, `readi`,
--   `writei`, `itrunc`; Path: `skipelem`; Directory: `dirlookup`, `dirlink`, `namex`). Its loops run on
--   fuel: the number of bitmap blocks, inodes, directory entries or blocks in a range, or the length of
--   the path, plus one or two. Fuel used up is `hang` in `balloc`, so that a theorem that excludes it says that the fuel is enough.
--   File is kernel/file.c, the table of open files over the inodes. Edits says what a sound file system
--   is, and what a call may change of the blocks that the kernel sees; Blocks/Alloc and Blocks/Free, Inodes/Update
--   and Inodes/Reload, and Content/Bytes to Content/RoundTrip rest on it: a file is the array of its bytes.
-- Memory: kernel/pmm.c, the list of free pages (Pmm), where the fuel of `pmm_init` is the number of
--   pages below PHYSTOP, kernel/vm.c, the page tables, the copies from and to a process (Vm) and the debugging
--   output (Vm/Dump), and kernel/vm_init.c (Vm/Init).
-- Process: kernel/proc.c: the process table, the switches between the scheduler and the process that
--   runs, `sleep` and `wakeup`, `exit_process` and `wait_process`, `kill` (Process), and `alloc_process`,
--   `fork`, `sbrk` and `user_init` over the page tables (Create). Create/First is about `user_init`, Create/Births and
--   Create/Pids about the pids, and Create/Fair about the loop of `scheduler`. The loops of `fork` and `sbrk` add
--   with the wrap-around of 64 bits and run on the number of pages and more than that (2^72 and 2^20); used up, it is `hang`. They end for sizes that do not
--   reach into the last page of the address space.
-- Console: kernel/printf.c and kernel/console.c (Printf) and kernel/klog.c, the ring buffer of messages
--   (Klog) and what the console shows of them (Klog/Shown). A number has at most 64
--   digits, and 20 in the log, which is the fuel of its digits.
-- System: kernel/syscall.c, kernel/sysfile.c, kernel/sysproc.c (System, Open, Remove, Transfer, Calls) and
--   kernel/trap.c (Trap), over all the parts above; kernel/exception.c and kernel/timer.c, which nothing
--   calls (Interrupts); and `kmain` of kernel/main.c, which starts the parts in their order (Boot). A call of a process returns, sleeps in
--   `wait_process` or ends its process. Its loops take at most 512 bytes a round (128 on the console), and a
--   round with less is the last, which is their fuel; used up, it is `hang`, which Idle/Whole and Idle/Calls exclude. Trace is the run of the kernel with user
--   mode between the traps, which may change any word of the memory. Idle is
--   about the transactions that the calls begin; FileSystem/Transactions follows the log through every
--   function of the file system.
-- Mkfs: mkfs/mkfs.c, the host program that makes the first image. What it appends takes at least one
--   byte a round, which is its fuel.
-- User: user/ulib.c: strings, `memset` and the digits (Ulib), of which no number has more than 64, which is their
--   fuel, and `printf` (Format).
--
-- Not modelled: assembly; user/init.c and test.c, which only call what is here and print the results; and log
-- messages outside kernel/klog.c and kernel/main.c, which change the console and the log buffer alone. The host's files
-- under mkfs, the device, the clock and what the linker places are parameters.
pub mod Common
pub mod Console
pub mod FileSystem
pub mod Memory
pub mod Mkfs
pub mod Process
pub mod Storage
pub mod System
pub mod User
