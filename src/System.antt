-- ===== src/System.antt =====
-- System calls: kernel/syscall.c, and the state that the calls of kernel/sysproc.c and kernel/sysfile.c share.
--
-- The process that calls is an index of the process table. Its arguments are in its trapframe, which the
-- kernel reads as memory. An `int` is its 32-bit pattern, so that -1 is `minus_one`. What a C function finds in an array of its
-- stack, what the clock shows and what the linker places is a parameter.
mod Tests
pub mod Open
pub mod Remove
pub mod Transfer
pub mod Calls
pub mod Trap
pub mod Interrupts
pub mod Idle
pub mod Trace
pub mod Boot
use riscvos.Common.{
  ℕ, zero, suc, ◌+◌, ◌-◌, ◌*◌, ◌/◌, ◌%◌, ◌^◌, Bool, true, false, Option, none, some, List, ◌==◌,
  ltb, if◌then◌else◌, update,
}
use riscvos.Common.Outcome.{Outcome, done, hang, ◌>>=◌}
use riscvos.Storage.Log.{begin_op, end_op, entered, sleeping}
use riscvos.Memory.Vm.{load, copyinstr}
use riscvos.Process.{Proc, Table, set_proc}
use riscvos.Process.Create.{tf_addr, tf_a0}
use riscvos.FileSystem.{Fs}
use riscvos.FileSystem.File.{Files}
use riscvos.Console.Klog.{LogState}

pub record Kernel : Type 0 where
  pub table : Table
  pub files : Files
  pub line : List ℕ
  pub log : LogState

abbrev pub minus_one : ℕ
minus_one = 2 ^ 32 - 1

abbrev pub with_table : Table → Kernel → Kernel
with_table t k = record k { table = t }

abbrev pub with_files : Files → Kernel → Kernel
with_files f k = record k { files = f }

abbrev pub with_fs : Fs → Kernel → Kernel
with_fs s k = record k { files = record k.files { fs = s } }

abbrev pub proc_of : ℕ → Kernel → Proc
proc_of i k = k.table.proc i

-- `argaddr` and `argint`: argument `n`, one of the six.
abbrev pub argaddr : ℕ → ℕ → Kernel → ℕ
argaddr n i k = load k.table.ram (tf_addr (proc_of i k) (tf_a0 + n))

abbrev pub argint : ℕ → ℕ → Kernel → ℕ
argint n i k = argaddr n i k % 2 ^ 32

abbrev pub argstr : ℕ → ℕ → ℕ → Kernel → Option (List ℕ)
argstr n max i k = copyinstr (proc_of i k).pagetable (argaddr n i k) max k.table.ram

-- `begin_op` and `end_op` on the state of the file system. A process that sleeps in `begin_op` keeps `log.lock`, which
-- no `end_op` can then take: it waits for ever.
unfoldable pub start_op : Fs → Outcome Fs
start_op s = begin_op s.store.log >>= λ b. elim b [
  | entered l ↦ done (record s { store = record s.store { log = l } })
  | sleeping l ↦ hang "begin_op"
]

unfoldable pub finish_op : Fs → Outcome Fs
finish_op s = end_op s.store >>= λ t. done (record s { store = t })

-- `end_op(); return -1;` of a function whose result is a number, and of a part that gives an inode.
abbrev pub fail : Kernel → Outcome (ℕ × Kernel)
fail k = finish_op k.files.fs >>= λ t. done (minus_one, with_fs t k)

abbrev pub give_up : Fs → Outcome (Option ℕ × Fs)
give_up s = finish_op s >>= λ t. done (none, t)

-- Whether `fd` is a descriptor of the process, and its file; a negative `fd` is a large pattern.
abbrev pub file_of : ℕ → Proc → Option ℕ
file_of fd p = if ltb fd 16 then p.ofile fd else none

-- The loop of `fdalloc`.
unfoldable pub find_fd : (ℕ → Option ℕ) → ℕ → ℕ → Option ℕ
find_fd ofile zero fd = none
find_fd ofile (suc k) fd =
    let rest = find_fd ofile k (fd + 1) in elim (ofile fd) [ none ↦ some fd | some f ↦ rest ]

unfoldable pub fdalloc : ℕ → ℕ → Table → Option ℕ × Table
unfolding find_fd
fdalloc f i t = elim (find_fd (t.proc i).ofile 13 3) [
  | none ↦ (none, t)
  | some fd ↦
      (some fd, set_proc i (record (t.proc i) { ofile = update (t.proc i).ofile fd (some f) }) t)
]
