-- ===== src/System/Tests.antt =====
-- System calls and traps at a concrete state.
use riscvos.Common.{◌*◌, ◌≡◌, ◌∷◌, refl, true, false, none, some, [], arith, if◌then◌else◌, ◌==◌}
use riscvos.Common.Outcome.{Ensures}
use riscvos.Storage.Bio.{boot}
use riscvos.Process.{Proc, running, nothing, dispatch}
use riscvos.FileSystem.{Fs, Inode}
use riscvos.FileSystem.File.{fd_inode}
use riscvos.Mkfs.{Builder}
use riscvos.Mkfs.Mount.{mkfs-fsinit}
use riscvos.Storage.Virtio.Handshake.{Registers, mmio_status, mmio_queue_num_max}
use riscvos.System.Boot.{Platform}
use riscvos.System.Trace.{start, runs, with_words, dispatches, Steps-usertrap}
use riscvos.System.{with_fs, with_table, Kernel, argint}
use riscvos.System.Calls.{Env, syscall}
use riscvos.System.Open.{sys_close}
use riscvos.System.Transfer.{sys_read}
use riscvos.System.Idle.Bounds.{Counts, sys_read-Counts}
use riscvos.System.Idle.{IdleKernel}
use riscvos.System.Idle.Calls.{IdleResult, IsCaller, syscall-IdleResult}
use riscvos.System.Idle.Orphan.{sys_close-IsOrphan}
use riscvos.Console.Printf.{codes}
use riscvos.System.Interrupts.{handle_exception, timer_init}
use riscvos.System.Trap.{Csr, Vectors, usertrap, usertrapret}
use riscvos.System.Trap.Return.{Prepared, usertrapret-Prepared, Left, usertrap-Left}

abbrev caller : Proc
caller = record {
  state = running;
  pid = 7;
  kstack = 4096;
  name = λ i. 0;
  parent = none;
  chan = nothing;
  exit_code = 0;
  killed = false;
  ra = 0;
  sp = 0;
  sz = 0;
  pagetable = 0;
  trapframe = 0;
  ofile = λ fd. if fd == 3 then some 0 else none;
}

-- An inode without a name, which one open file uses.
abbrev nameless : Inode
nameless = record {
  dev = 0;
  inum = 5;
  ref = 1;
  valid = true;
  kind = 2;
  major = 0;
  minor = 0;
  nlink = 0;
  size = 0;
  addrs = λ i. 0;
}

-- Process 0 calls `close(3)`.
abbrev kernel : Kernel
kernel = record {
  table = record {
    proc = λ i. caller;
    current = some 0;
    nextpid = 8;
    ram = record {
      pmm = record { freelist = 0; next = λ p. 0 };
      word = λ a. if a == 21 then 21 else 3;
    };
  };
  files = record {
    file =
        λ i. record { kind = fd_inode; ref = 1; readable = true; writable = true; ip = 0; off = 0 };
    fs = record {
      store = record {
        log = record {
          start = 2;
          size = 30;
          outstanding = 0;
          committing = false;
          dev = 0;
          n = 0;
          block = λ i. 0;
          lock = false;
        };
        cache = boot (λ n i. 0) [];
      };
      sb = record {
        magic = 0;
        size = 1000;
        nblocks = 0;
        ninodes = 200;
        nlog = 30;
        logstart = 2;
        inodestart = 32;
        bmapstart = 45;
      };
      inode = λ i. nameless;
    };
  };
  line = [];
  log = record {
    buffer = λ i. 0;
    head = 0;
    tail = 0;
    count = 0;
    total_logs = 0;
    dropped = 0;
    enabled = true;
    use_color = true;
  };
}

kernel-Idle : IdleKernel kernel
kernel-Idle = record {
  outstanding = refl;
  committing = refl;
  lock = refl;
  n = refl;
  room = (omega arith, omega arith);
}

abbrev env : Env
env = record {
  link = record { trampoline = 2147483648; usertrapret = 0; program = λ j. 0; program_size = 0 };
  time = 0;
  stack = λ j. 0;
}

abbrev registers : Csr
registers = record { sstatus = 0; scause = 8; sepc = 0; stval = 0; satp = 0 }

abbrev vectors : Vectors
vectors = record { uservec = 0; userret = 144; usertrap = 0 }

kernel-IsCaller : IsCaller 0 kernel
kernel-IsCaller = record { runs = refl; fits = omega arith }

syscall-IdleResult_example : Ensures IdleResult (syscall env 0 kernel)
syscall-IdleResult_example = syscall-IdleResult env 0 kernel kernel-IsCaller kernel-Idle

sys_close-IsOrphan_example : Ensures (λ _. ⊥) (sys_close 0 kernel)
sys_close-IsOrphan_example =
    sys_close-IsOrphan 0 0 kernel kernel-Idle refl
      (record { ref = refl; kind = refl; inode_ref = refl; valid = refl; nlink = refl })

usertrapret-Prepared_example :
    Prepared vectors registers 0 kernel (usertrapret vectors registers 0 kernel)
usertrapret-Prepared_example = usertrapret-Prepared vectors registers 0 kernel

usertrap-Left_example : Ensures (Left 0) (usertrap env vectors registers 0 kernel)
usertrap-Left_example = usertrap-Left env vectors registers 0 kernel kernel-IsCaller kernel-Idle

-- A kernel that has mounted the image and runs process 0.
abbrev mounted_fs : Fs
mounted_fs = (mkfs-fsinit kernel.files.fs refl refl).3.0

abbrev mounted_kernel : Kernel
mounted_kernel = with_fs mounted_fs kernel

abbrev image : Builder
image = (mkfs-fsinit kernel.files.fs refl refl).0

-- The same kernel after the dispatch of process 0, which ran and left other words in the memory.
abbrev dispatched : Kernel
dispatched = with_words (λ a. a * 3) (with_table (dispatch 0 mounted_kernel.table) mounted_kernel)

dispatched-IsCaller : IsCaller 0 dispatched
unfolding dispatch
dispatched-IsCaller = record { runs = refl; fits = omega arith }

Steps-usertrap_example :
    IdleKernel dispatched × Ensures (Left 0) (usertrap env vectors registers 0 dispatched)
Steps-usertrap_example =
    Steps-usertrap kernel.files.fs mounted_fs image mounted_kernel dispatched env vectors registers
      0 refl refl (mkfs-fsinit kernel.files.fs refl refl).1
      (mkfs-fsinit kernel.files.fs refl refl).3.1 refl dispatched-IsCaller
      (runs (λ a. a * 3) (dispatches 0 start))

sys_read-Counts_example : Ensures (Counts (argint 2 0 kernel)) (sys_read 0 kernel)
sys_read-Counts_example = sys_read-Counts 0 kernel kernel-Idle

-- A disk with a queue of 1024 that accepts what the driver asks for.
abbrev accepting : Registers
accepting w offset =
    if offset == mmio_status then 11 else (if offset == mmio_queue_num_max then 1024 else 0)

abbrev platform : Platform
platform = record {
  link = env.link;
  kernel_end = 2149642240;
  kernelvec = 2149580864;
  disk_pages = 2149609472;
  device = accepting;
  clock = λ j. 10000 * j;
}

-- A store to page 16 faults.
handle_exception_test :
    (handle_exception (record { sstatus = 0; scause = 15; sepc = 64; stval = 65536; satp = 0 })).0
    ≡ codes
        "[exception] scause=0xf, sepc=0x40, stval=0x10000\n[exception] Store/AMO page fault at va=0x10000\n"
unfolding handle_exception riscvos.Console.Printf.outc_back riscvos.Console.Printf.printu_digits
handle_exception_test = refl

timer_init_test : timer_init (record { time = 5; ecalls = []; sie = 512; sstatus = 0 }) ≡ record {
  time = 5;
  ecalls = (record { a0 = 1000005; a6 = 0; a7 = 1414090053 }) ∷ [];
  sie = 544;
  sstatus = 2;
}
unfolding timer_init
timer_init_test = refl
