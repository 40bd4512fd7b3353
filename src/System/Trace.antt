-- ===== src/System/Trace.antt =====
-- The kernel from the mount on: traps of the processes, and what runs between them.
use riscvos.Common.{ℕ, ◌/◌, ◌%◌, ◌^◌, ◌≡◌, sym, subst, ◌∙◌, false, some}
use riscvos.Common.Outcome.{done, Ensures, Ensures-done}
use riscvos.Process.{awake, dispatch}
use riscvos.FileSystem.{Fs, fsinit}
use riscvos.Mkfs.{Builder, mkfs}
use riscvos.Mkfs.Mount.{IsReady, started, mkfs-fsinit}
use riscvos.System.{Kernel, with_table}
use riscvos.System.Calls.{Env, wait_again, set_result}
use riscvos.System.Trap.{
  Csr, Vectors, Trap, to_user, ended, in_call, yielded, usertrap, after_call, leave_trap,
}
use riscvos.System.Trap.Return.{Left, usertrap-Left, leave_trap-Left, after_call-Left}
use riscvos.System.Idle.{IdleKernel}
use riscvos.System.Idle.Calls.{IsCaller, wait_from-IdleResult, set_result-IdleResult}

-- The kernel that a trap leaves.
abbrev pub kernel_of : Trap → Kernel
kernel_of (to_user u k) = k
kernel_of (ended k) = k
kernel_of (in_call k) = k
kernel_of (yielded k) = k

-- The memory after a process ran in user mode, or after `uservec` stored its registers in its trapframe: the words of
-- the memory are any others.
abbrev pub with_words : (ℕ → ℕ) → Kernel → Kernel
with_words words m = with_table (record m.table { ram = record m.table.ram { word = words } }) m

-- What happens to the kernel after it has started: processes run in user mode and change the words of the memory, a running
-- process has its registers saved by `uservec` in a page of the memory, traps and comes to an end of the trap, the scheduler
-- dispatches a process, or a process that was dispatched goes on behind `yield` or in `wait_process`.
pub data Steps (k : Kernel) : Kernel → Type 0 where
  start : Steps k k
  runs : {m : Kernel} (words : ℕ → ℕ) → Steps k m → Steps k (with_words words m)
  trap :
      {m : Kernel} (e : Env) (v : Vectors) (r : Csr) (i : ℕ) (t : Trap)
      → usertrap e v r i m ≡ done t
      → IsCaller i m
      → Steps k m
      → Steps k (kernel_of t)
  dispatches : {m : Kernel} (i : ℕ) → Steps k m → Steps k (with_table (dispatch i m.table) m)
  goes_on :
      {m : Kernel} (v : Vectors) (r : Csr) (i : ℕ)
      → r.sstatus / 2 ^ 8 % 2 ≡ 0
      → Steps k m
      → Steps k (kernel_of (leave_trap v r i m))
  waits_on :
      {m : Kernel} (v : Vectors) (r : Csr) (addr i : ℕ)
      → r.sstatus / 2 ^ 8 % 2 ≡ 0
      → Steps k m
      → Steps k (kernel_of (after_call v r i (set_result i (wait_again addr i m))))

kernel_of-Left : (i : ℕ) (t : Trap) → Left i t → IdleKernel (kernel_of t)
kernel_of-Left i (to_user u k) l = l.2
kernel_of-Left i (ended k) l = l
kernel_of-Left i (in_call k) l = l
kernel_of-Left i (yielded k) l = l

Steps-IdleKernel : {k m : Kernel} → IdleKernel k → Steps k m → IdleKernel m
unfolding wait_again
Steps-IdleKernel h start = h
Steps-IdleKernel h (runs words s) = Steps-IdleKernel h s
Steps-IdleKernel h (trap {m} e v r i t z w s) =
    kernel_of-Left i t
      (Ensures-done (subst (Ensures (Left i)) z (usertrap-Left e v r i m w (Steps-IdleKernel h s))))
Steps-IdleKernel h (dispatches i s) = Steps-IdleKernel h s
Steps-IdleKernel h (goes_on {m} v r i user s) =
    kernel_of-Left i (leave_trap v r i m) (leave_trap-Left v r i m user (Steps-IdleKernel h s))
Steps-IdleKernel h (waits_on {m} v r addr i user s) =
    kernel_of-Left i (after_call v r i (set_result i (wait_again addr i m))) (
      after_call-Left v r i (set_result i (wait_again addr i m)) user (
        set_result-IdleResult i (wait_again addr i m)
          (wait_from-IdleResult addr i (with_table (awake i m.table) m) (Steps-IdleKernel h s))))

-- The kernel mounts the image that `mkfs` makes and then runs: traps of running processes in any order, with the scheduler and
-- any change of the memory's words, so of registers and user memory, between them. The size of a process that traps is more than
-- 2^32 below the end of the address space. At every point of such a run the log is idle, and a further trap of such a process
-- panics or comes to an end, in which the log is idle again and which goes back to user mode only if its process is not killed;
-- it never waits for ever for the log, nor in the loops of `sys_read`, `sys_write`, `balloc`, `fork` and `sbrk`.
pub Steps-usertrap :
    (t s : Fs) (b : Builder) (k m : Kernel) (e : Env) (v : Vectors) (r : Csr) (i : ℕ)
    → t.store.log.outstanding ≡ 0
    → t.store.log.committing ≡ false
    → mkfs ≡ some b
    → fsinit 0 (started b.image t) ≡ done s
    → k.files.fs ≡ s
    → IsCaller i m
    → Steps k m
    → IdleKernel m × Ensures (Left i) (usertrap e v r i m)
Steps-usertrap t s b k m e v r i h h' made mounted fs w run =
    let (b', made', root, (s', mounted', ready)) = mkfs-fsinit t h h' in
    let same : b' ≡ b = cc (made, made') in
    let twice : fsinit 0 (started b.image t) ≡ done s' =
      subst (λ x. fsinit 0 (started x.image t) ≡ done s') same mounted' in
    let same_fs : s' ≡ s = cc (mounted, twice) in
    let ready_fs : IsReady k.files.fs = subst IsReady (same_fs ∙ sym fs) ready in
    let idle : IdleKernel m = Steps-IdleKernel ready_fs.log run in
    (idle, usertrap-Left e v r i m w idle)
