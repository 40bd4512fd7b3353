-- ===== src/System/Idle.antt =====
-- kernel/sysfile.c and kernel/sysproc.c: every path of a system call that begins a transaction ends it.
pub mod Files
pub mod Whole
pub mod Transfers
pub mod Calls
pub mod Orphan
pub mod Bounds
use riscvos.Common.{
  ℕ, ◌+◌, ◌≡◌, refl, sym, subst, Bool, true, false, Option, none, some, List, ◌==◌, ◌&&◌, ◌||◌, not,
  if◌then◌else◌, arith, Bool-cases,
}
use riscvos.Common.Outcome.{
  Outcome, done, panic, ◌>>=◌, Ensures, returns, panics, Ensures->>=, Ensures-imp, Ensures-if,
  Ensures-bool, Ensures-option,
}
use riscvos.Common.Word.{slt}
use riscvos.Storage.Log.{Log, begin_op, entered, sleeping}
use riscvos.Storage.Log.Phase.{IsIdle, IsOpen, end_op-IsIdle, begin_op-IsOpen, log_block-IsOpen}
use riscvos.FileSystem.{Fs}
use riscvos.FileSystem.Transactions.{LogLaw, Kept, KeptWith}
use riscvos.System.{Kernel, start_op, finish_op, fail, give_up, minus_one, with_fs}

-- In a transaction.
abbrev pub open_law : LogLaw
open_law = record {
  Holds = IsOpen;
  free = λ l o. o.lock;
  keep = λ l b room in_op o. log_block-IsOpen l b room o;
}

pub idle_not_open : (l : Log) → IsIdle l → slt l.outstanding 1 ≡ false → ⊥
idle_not_open l i e = ground (arith, e, i.outstanding)

-- Outside of one, where `log_write` does not return.
abbrev pub idle_law : LogLaw
idle_law = record {
  Holds = IsIdle;
  free = λ l i. i.lock;
  keep = λ l b room in_op i. absurd (idle_not_open l i in_op);
}

abbrev pub OpenFs : Fs → Type 0
OpenFs = Kept open_law

abbrev pub IdleFs : Fs → Type 0
IdleFs = Kept idle_law

abbrev pub IdleKernel : Kernel → Type 0
IdleKernel k = IdleFs k.files.fs

abbrev pub IdleCall : ℕ × Kernel → Type 0
IdleCall r = IdleKernel r.1

pub start_op-open : (s : Fs) → IdleFs s → Ensures OpenFs (start_op s)
unfolding start_op
start_op-open s i = let (l, e, o) = begin_op-IsOpen s.store.log i in rw e (returns o)

pub finish_op-idle : (s : Fs) → OpenFs s → Ensures IdleFs (finish_op s)
unfolding finish_op
finish_op-idle s o = Ensures->>= (end_op-IsIdle s.store o) (λ t i. returns i)

pub fail-IdleCall : (k : Kernel) → OpenFs k.files.fs → Ensures IdleCall (fail k)
fail-IdleCall k o = Ensures->>= (finish_op-idle k.files.fs o) (λ t i. returns i)

-- The result of the first part of `sys_open`: an inode in the transaction, or nothing outside of it.
abbrev pub Located : Option ℕ × Fs → Type 0
Located (none, s) = IdleFs s
Located (some i, s) = OpenFs s

pub give_up-Located : (s : Fs) → OpenFs s → Ensures Located (give_up s)
give_up-Located s o = Ensures->>= (finish_op-idle s o) (λ t i. returns i)
