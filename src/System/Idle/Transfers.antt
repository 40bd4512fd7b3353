-- ===== src/System/Idle/Transfers.antt =====
-- kernel/sysproc.c and kernel/sysfile.c: the calls that read and write, on an idle log.
use riscvos.Common.{
  ℕ, zero, suc, ◌+◌, ◌-◌, ◌*◌, ◌/◌, ◌≤◌, ◌≡◌, arith, Option, some, List, Bool, true, false, length,
  get_or, ◌==◌, ◌||◌, ltb, if◌then◌else◌,
}
use riscvos.Common.Outcome.{
  Ensures, returns, Ensures->>=, Ensures-if, Ensures-bool, Ensures-option, Ensures-when,
}
use riscvos.Common.Word.{slt, add64}
use riscvos.Memory.Vm.{copyin, copyout}
use riscvos.FileSystem.Transactions.{ilock-Kept, iunlock-Kept}
use riscvos.FileSystem.Transactions.Names.{filewrite-KeptFiles, fileread-KeptFiles}
use riscvos.Console.Printf.{console_puts}
use riscvos.System.{Kernel, with_files, with_table, proc_of, argint, argaddr, file_of}
use riscvos.System.Transfer.{
  at_most, read_loop, sys_read, sys_fread, write_chunk, locked_chunk, write_loop, console_loop,
  sys_write, sys_fwrite,
}
use riscvos.System.Idle.Whole.{Whole, filewrite-Whole, left_512, left_128}
use riscvos.FileSystem.File.{Files, filewrite}
use riscvos.FileSystem.Transactions.{LogLaw}
use riscvos.System.Idle.{open_law, idle_law, IdleKernel, IdleCall, start_op-open, finish_op-idle}

read_loop-IdleCall :
    (j i f addr n total : ℕ) (k : Kernel)
    → n + 512 ≤ j * 512
    → IdleKernel k
    → Ensures IdleCall (read_loop j i f addr n total k)
unfolding read_loop
read_loop-IdleCall zero i f addr n total k fuel h = absurd (omega arith)
read_loop-IdleCall (suc j) i f addr n total k fuel h =
    Ensures-bool (slt 0 n)
      (λ pos. Ensures->>= (fileread-KeptFiles idle_law f (at_most 512 n) k.files h) (λ r h₁.
        Ensures-option r.0 (λ _. returns h₁)
          (λ bs _.
            Ensures-bool (length bs == 0) (λ _. returns h₁)
              (λ _.
                let c =
                  copyout (proc_of i k).pagetable addr (λ o. get_or bs o 0) (length bs)
                    k.table.ram in
                let k' : Kernel = with_table (record k.table { ram = c.1 }) (with_files r.1 k) in
                Ensures-bool c.0
                  (λ _.
                    Ensures-bool (ltb (length bs) (at_most 512 n)) (λ _. returns h₁)
                      (λ full.
                        read_loop-IdleCall j i f (add64 addr (length bs)) (n - length bs)
                          (total + length bs) k' (left_512 j n (length bs) pos (ground arith) fuel)
                          h₁))
                  (λ _. returns h₁)))))
      (λ _. returns h)

pub sys_read-IdleCall : (i : ℕ) (k : Kernel) → IdleKernel k → Ensures IdleCall (sys_read i k)
unfolding sys_read
sys_read-IdleCall i k h =
    Ensures-if (slt (argint 2 i k) 0) (λ _. returns h)
      (λ _.
        Ensures-if (argint 0 i k == 0) (λ _. returns h)
          (λ _.
            Ensures-option (file_of (argint 0 i k) (proc_of i k)) (λ _. returns h)
              (λ f _.
                read_loop-IdleCall (argint 2 i k / 512 + 2) i f (argaddr 1 i k) (argint 2 i k) 0 k
                  (omega arith) h)))

-- A round of a write: the log is idle again, and a count is the one that was asked for.
abbrev Round : ℕ → Option (Option ℕ) × Kernel → Type 0
Round m r = IdleKernel r.1 × ((x : Option ℕ) → r.0 ≡ some x → Whole m x)

counted : (m : ℕ) (w : Option ℕ) → Whole m w → (x : Option ℕ) → some w ≡ some x → Whole m x
counted m w all x e v q = all v cc

written :
    (i f m : ℕ) (bs : List ℕ) (s : Files)
    → LogLaw.Holds open_law s.fs.store.log
    → Ensures
        (λ w. (LogLaw.Holds open_law w.1.fs.store.log) × Whole m w.0)
        (filewrite f (λ o. get_or bs o 0) m s)
written i f m bs s h =
    Ensures-when (filewrite-KeptFiles open_law f (λ o. get_or bs o 0) m s h)
      (λ w k e. (k, filewrite-Whole f (λ o. get_or bs o 0) m s w e))

write_chunk-IdleKernel :
    (i f addr m : ℕ) (k : Kernel) → IdleKernel k → Ensures (Round m) (write_chunk i f addr m k)
unfolding write_chunk
write_chunk-IdleKernel i f addr m k h = Ensures->>= (start_op-open k.files.fs h) (λ s h₁.
    Ensures-option (copyin (proc_of i k).pagetable addr m k.table.ram)
      (λ _. Ensures->>= (finish_op-idle s h₁) (λ t h₂. returns (h₂, λ x e. cc)))
      (λ bs _. Ensures->>= (written i f m bs (record k.files { fs = s }) h₁) (λ w (h₂, all).
        Ensures->>= (finish_op-idle w.1.fs h₂) (λ t h₃. returns (h₃, counted m w.0 all)))))

locked_chunk-IdleKernel :
    (i f addr m : ℕ) (k : Kernel) → IdleKernel k → Ensures (Round m) (locked_chunk i f addr m k)
unfolding locked_chunk
locked_chunk-IdleKernel i f addr m k h = Ensures->>= (start_op-open k.files.fs h) (λ s h₁.
    Ensures->>= (ilock-Kept open_law (k.files.file f).ip s h₁) (λ l h₂.
      Ensures-option (copyin (proc_of i k).pagetable addr m k.table.ram)
        (λ _.
          Ensures->>=
            (Ensures->>= (iunlock-Kept open_law (k.files.file f).ip l h₂)
              (λ u h₃. finish_op-idle u h₃))
            (λ t h₃. returns (h₃, λ x e. cc)))
        (λ bs _. Ensures->>= (written i f m bs (record k.files { fs = l }) h₂) (λ w (h₃, all).
          Ensures->>=
            (Ensures->>= (iunlock-Kept open_law (w.1.file f).ip w.1.fs h₃)
              (λ u h₄. finish_op-idle u h₄))
            (λ t h₄. returns (h₄, counted m w.0 all))))))

write_loop-IdleCall :
    (locked : Bool) (j i f addr n total : ℕ) (k : Kernel)
    → n + 512 ≤ j * 512
    → IdleKernel k
    → Ensures IdleCall (write_loop locked j i f addr n total k)
unfolding write_loop
write_loop-IdleCall locked zero i f addr n total k fuel h = absurd (omega arith)
write_loop-IdleCall locked (suc j) i f addr n total k fuel h =
    Ensures-bool (slt 0 n)
      (λ pos. Ensures->>= chunk (λ r (h₁, all).
        Ensures-option r.0 (λ _. returns h₁)
          (λ w e.
            Ensures-option w (λ _. returns h₁)
              (λ m q.
                Ensures-bool (slt 0 m)
                  (λ _.
                    write_loop-IdleCall locked j i f (add64 addr m) (n - m) (total + m) r.1
                      (left_512 j n m pos (omega (arith, all w e m q)) fuel) h₁)
                  (λ _. returns h₁)))))
      (λ _. returns h)
  where
    chunk : Ensures (Round (at_most 512 n)) (
        if locked
        then locked_chunk i f addr (at_most 512 n) k
        else write_chunk i f addr (at_most 512 n) k)
    chunk =
        Ensures-if locked (λ _. locked_chunk-IdleKernel i f addr (at_most 512 n) k h)
          (λ _. write_chunk-IdleKernel i f addr (at_most 512 n) k h)

console_loop-IdleCall :
    (j i addr n total : ℕ) (k : Kernel)
    → n + 128 ≤ j * 128
    → IdleKernel k
    → Ensures IdleCall (console_loop j i addr n total k)
unfolding console_loop
console_loop-IdleCall zero i addr n total k fuel h = absurd (omega arith)
console_loop-IdleCall (suc j) i addr n total k fuel h =
    Ensures-bool (slt 0 n)
      (λ pos.
        Ensures-option (copyin (proc_of i k).pagetable addr (at_most 128 n) k.table.ram)
          (λ _. returns h)
          (λ bs _.
            console_loop-IdleCall j i (add64 addr (at_most 128 n)) (n - at_most 128 n)
              (total + at_most 128 n) (record k { line = console_puts bs k.line })
              (left_128 j n (at_most 128 n) pos (omega arith) fuel) h))
      (λ _. returns h)

-- `sys_write` on an idle log never waits for ever, and every path on which it returns leaves the log idle again.
pub sys_write-IdleCall : (i : ℕ) (k : Kernel) → IdleKernel k → Ensures IdleCall (sys_write i k)
unfolding sys_write
sys_write-IdleCall i k h =
    Ensures-if (slt (argint 2 i k) 0) (λ _. returns h)
      (λ _.
        Ensures-if (argint 0 i k == 1 || argint 0 i k == 2)
          (λ _.
            console_loop-IdleCall (argint 2 i k / 128 + 2) i (argaddr 1 i k) (argint 2 i k) 0 k
              (omega arith) h)
          (λ _.
            Ensures-option (file_of (argint 0 i k) (proc_of i k)) (λ _. returns h)
              (λ f _.
                write_loop-IdleCall false (argint 2 i k / 512 + 2) i f (argaddr 1 i k)
                  (argint 2 i k) 0 k (omega arith) h)))

-- `sys_fwrite` and `sys_fread` on an idle log never wait for ever, and every path on which they return leaves the log idle again.
pub sys_fwrite-sys_fread :
    (i : ℕ) (k : Kernel)
    → IdleKernel k
    → Ensures IdleCall (sys_fwrite i k) × Ensures IdleCall (sys_fread i k)
unfolding sys_fwrite sys_fread
sys_fwrite-sys_fread i k h = (
  Ensures-option (file_of (argint 0 i k) (proc_of i k)) (λ _. returns h)
      (λ f _.
        write_loop-IdleCall true (argint 2 i k / 512 + 2) i f (argaddr 1 i k) (argint 2 i k) 0 k
          (omega arith) h),
  Ensures-option (file_of (argint 0 i k) (proc_of i k)) (λ _. returns h)
      (λ f _.
        read_loop-IdleCall (argint 2 i k / 512 + 2) i f (argaddr 1 i k) (argint 2 i k) 0 k
          (omega arith) h),
)
