-- ===== src/System/Boot.antt =====
-- kernel/main.c: the start of the kernel, up to the scheduler.
--
-- The CPU starts with the memory as it is, the disk with an image. What the linker places, the clock and the registers of
-- the disk are parameters, while a request to the disk has completed when `bread` or `bwrite` returns (the wait of `virtio_disk_rw`
-- for a device that never answers is not here); what `kmain` prints is in `line`, and what the parts print by themselves is left out. Where memory runs out while it maps a page, `kvminit` goes on without that page; the model
-- stops there.
pub mod Ready
use Prim.Native.String.{String}
use riscvos.Common.{ℕ, ◌+◌, ◌*◌, ◌/◌, ◌^◌, Bool, true, false, Option, none, List, []}
use riscvos.Common.Outcome.{Outcome, done, ◌>>=◌}
use riscvos.Storage.Bio.{Block, binit}
use riscvos.Storage.Virtio.{Disk, null}
use riscvos.Storage.Virtio.Handshake.{Writes, Registers, start_disk}
use riscvos.Memory.Pmm.{pmm_init}
use riscvos.Memory.Vm.{Ram}
use riscvos.Memory.Vm.Init.{kvminit}
use riscvos.Process.{Proc, unused, nothing, proc_init}
use riscvos.Process.Create.{Link, or_fault}
use riscvos.Process.Create.Start.{user_init}
use riscvos.FileSystem.{Inode, fsinit}
use riscvos.FileSystem.File.{File, fd_none, fileinit}
use riscvos.Console.Klog.{LogState, klog, get_timestamp, log_init, log_stats}
use riscvos.Console.Klog.Shown.{klog_shown}
use riscvos.Console.Printf.{codes, printf}
use riscvos.System.{Kernel, with_table}
use riscvos.System.Calls.{print}

-- What the linker and the machine decide. `clock` gives the time at each message.
pub record Platform : Type 0 where
  pub link : Link
  pub kernel_end : ℕ
  pub kernelvec : ℕ
  pub disk_pages : ℕ
  pub device : Registers
  pub clock : ℕ → ℕ

-- The kernel with the driver's state, the page table of the kernel, the registers that the start sets, and the writes to the
-- registers of the disk.
pub record Started : Type 0 where
  pub kernel : Kernel
  pub disk : Disk
  pub kernel_pagetable : ℕ
  pub satp : ℕ
  pub stvec : ℕ
  pub writes : Writes

-- Zeroed structures.
abbrev pub zero_proc : Proc
zero_proc = record {
  state = unused;
  pid = 0;
  kstack = 0;
  name = λ j. 0;
  parent = none;
  chan = nothing;
  exit_code = 0;
  killed = false;
  ra = 0;
  sp = 0;
  sz = 0;
  pagetable = 0;
  trapframe = 0;
  ofile = λ j. none;
}

abbrev zero_inode : Inode
zero_inode = record {
  dev = 0;
  inum = 0;
  ref = 0;
  valid = false;
  kind = 0;
  major = 0;
  minor = 0;
  nlink = 0;
  size = 0;
  addrs = λ j. 0;
}

abbrev zero_file : File
zero_file = record { kind = fd_none; ref = 0; readable = false; writable = false; ip = 0; off = 0 }

abbrev zero_disk : Disk
zero_disk = record {
  desc = λ j. record { addr = null; len = 0; flags = 0; next = 0 };
  ring = λ j. 0;
  avail_idx = 0;
  used_ring = λ j. 0;
  device_idx = 0;
  free = λ j. false;
  used_idx = 0;
  info = λ j. none;
  init = false;
  kind = 0;
  sector = 0;
}

-- The state behind `clear_bss`, over a disk with this image; `nextpid` starts at 1. `m` is the rest of memory.
unfoldable pub clear_bss : (ℕ → Block) → Ram → Kernel
clear_bss image m = record {
  table = record {
    proc = λ i. zero_proc;
    current = none;
    nextpid = 1;
    ram = record m { pmm = record m.pmm { freelist = 0 } };
  };
  files = record {
    file = λ i. zero_file;
    fs = record {
      store = record {
        log = record {
          start = 0;
          size = 0;
          outstanding = 0;
          committing = false;
          dev = 0;
          n = 0;
          block = λ i. 0;
          lock = false;
        };
        cache = record {
          buf = λ i. record {
            valid = false;
            disk = false;
            dev = 0;
            blockno = 0;
            refcnt = 0;
            bytes = λ j. 0;
          };
          lru = [];
          image = image;
          written = [];
        };
      };
      sb = record {
        magic = 0;
        size = 0;
        nblocks = 0;
        ninodes = 0;
        nlog = 0;
        logstart = 0;
        inodestart = 0;
        bmapstart = 0;
      };
      inode = λ i. zero_inode;
    };
  };
  line = [];
  log = record {
    buffer = λ i. 0;
    head = 0;
    tail = 0;
    count = 0;
    total_logs = 0;
    dropped = 0;
    enabled = false;
    use_color = false;
  };
}

-- `LOG_I`, the `j`-th message of the start.
unfoldable pub log_i : Platform → ℕ → String → Kernel → Kernel
log_i p j msg k =
    let ts = get_timestamp (p.clock j) in
    print (klog_shown 1 ts (codes msg) [] k.log) (record k { log = klog 1 ts (codes msg) [] k.log })

-- Up to the log system.
unfoldable pub start_log : Platform → Kernel → Kernel
unfolding log_i
start_log p k =
    let k' = print (printf (codes "=== Lab 7 & 8: File System + Kernel Log ===\n") []) k in
    log_i p 0 "Kernel log system initialized\n" (record k' { log = log_init k'.log })

-- The memory with its free pages.
abbrev pub free_memory : Platform → Kernel → Ram
free_memory p k = record k.table.ram { pmm = pmm_init p.kernel_end k.table.ram.pmm }

-- The memory: the free pages, and the page table of the kernel.
unfoldable pub start_memory : Platform → Kernel → Outcome (ℕ × Kernel)
unfolding log_i
start_memory p k = do
  let k₁ = log_i p 1 "Initializing physical memory manager...\n" k
  let m = free_memory p k₁
  let k₂ = log_i p 2 "Setting up kernel page table...\n" k₁
  r ← or_fault (kvminit p.link.trampoline m)
  done (r.0, with_table (record k₂.table { ram = r.1 }) k₂)

-- `w_stvec` is left to `kmain`.
unfoldable pub start_processes : Platform → Kernel → Kernel
unfolding log_i
start_processes p k =
    let k₁ =
      log_i p 4 "Initializing process table...\n" (log_i p 3 "Initializing trap handlers...\n" k) in
    with_table (proc_init k₁.table) k₁

-- The disk, the cache, the file system and the open files.
unfoldable pub start_storage : Platform → Kernel → Outcome ((Disk × Writes) × Kernel)
unfolding log_i
start_storage p k = do
  let k₁ = log_i p 5 "Initializing disk driver...\n" k
  d ← start_disk p.device p.disk_pages zero_disk
  let k₂ = log_i p 6 "Initializing buffer cache...\n" k₁
  let k₃ = log_i p 7 "Mounting file system...\n" k₂
  let fs = k₃.files.fs
  t ← fsinit 0 (record fs { store = record fs.store { cache = binit fs.store.cache } })
  let k₄ =
      log_i p 8 "Initializing file table...\n" (record k₃ { files = record k₃.files { fs = t } })
  done (d, record k₄ { files = fileinit k₄.files })

-- The first process, and the statistics of the log.
unfoldable pub start_user : Platform → Kernel → Outcome Kernel
unfolding log_i
start_user p k = do
  let k₁ = log_i p 9 "Creating init process...\n" k
  t ← user_init p.link k₁.table
  let k₂ = with_table t k₁
  done (log_i p 10 "Starting scheduler...\n" (print (log_stats k₂.log) k₂))

-- `kmain`, up to the call of `scheduler`, with `kvminithart` and `trap_init`.
unfoldable pub kmain : Platform → (ℕ → Block) → Ram → Outcome Started
unfolding clear_bss start_log start_memory start_processes start_storage start_user
kmain p image m = do
  r ← start_memory p (start_log p (clear_bss image m))
  s ← start_storage p (start_processes p r.1)
  k ← start_user p s.1
  done (record {
    kernel = k;
    disk = s.0.0;
    kernel_pagetable = r.0;
    satp = 8 * 2 ^ 60 + r.0 / 2 ^ 12;
    stvec = p.kernelvec;
    writes = s.0.1;
  })
