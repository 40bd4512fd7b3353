-- ===== src/System/Trap.antt =====
-- kernel/trap.c: traps of the kernel and of a process, and the return to the process.
pub mod Return
use riscvos.Common.{
  ℕ, ◌+◌, ◌-◌, ◌*◌, ◌/◌, ◌%◌, ◌^◌, Bool, true, false, Option, none, some, List, [], ◌∷◌, ◌++◌, ◌==◌,
  ◌&&◌, if◌then◌else◌,
}
use riscvos.Common.Outcome.{Outcome, done, panic, ◌>>=◌}
use riscvos.Common.Word.{add64}
use riscvos.Memory.Pmm.{pgsize}
use riscvos.Memory.Vm.{load, store}
use riscvos.Process.{Proc, Table, set_proc, exit_process, yield}
use riscvos.Process.Create.{trampoline_va, trapframe_va, tf_addr}
use riscvos.Console.Printf.{number, codes, printf}
use riscvos.System.{Kernel, minus_one, with_table, proc_of}
use riscvos.System.Calls.{Env, Result, returned, asleep, gone, print, syscall}

-- The registers of the CPU that a trap reads.
pub record Csr : Type 0 where
  pub sstatus : ℕ
  pub scause : ℕ
  pub sepc : ℕ
  pub stval : ℕ
  pub satp : ℕ

-- The code that the linker places: `uservec` and `userret` as offsets in the trampoline, and `usertrap`.
pub record Vectors : Type 0 where
  pub uservec : ℕ
  pub userret : ℕ
  pub usertrap : ℕ

abbrev pub is_timer : ℕ → Bool
is_timer scause = scause / 2 ^ 63 % 2 == 1 && scause % 256 == 5

-- `kerneltrap` gives back `sstatus` and `sepc`.
unfoldable pub kerneltrap : Csr → Outcome (ℕ × ℕ)
kerneltrap r = if is_timer r.scause then done (r.sstatus, r.sepc) else panic "kerneltrap"

-- What `userret` is called with, and the registers that it finds.
pub record Entry : Type 0 where
  pub stvec : ℕ
  pub status : ℕ
  pub epc : ℕ
  pub fn : ℕ
  pub frame : ℕ
  pub satp : ℕ

-- `x &= -(1ULL << 8)` and `x |= 1UL << 5`.
abbrev pub user_status : ℕ → ℕ
user_status x = x / 2 ^ 8 * 2 ^ 8 + 2 ^ 5

abbrev pub set_word : ℕ → ℕ → ℕ → Kernel → Kernel
set_word i n v k =
    with_table (record k.table { ram = store (tf_addr (proc_of i k) n) v k.table.ram }) k

-- Words 0 to 4 of the trapframe are `kernel_satp`, `kernel_sp`, `kernel_trap`, `epc` and `kernel_hartid`.
abbrev pub tf_epc : ℕ
tf_epc = 3

unfoldable pub usertrapret : Vectors → Csr → ℕ → Kernel → Entry × Kernel
usertrapret v r i k =
    let p = proc_of i k in
    let k' =
      set_word i 4 0
        (set_word i 2 v.usertrap (set_word i 1 (p.kstack + pgsize) (set_word i 0 r.satp k))) in
    (
      record {
        stvec = trampoline_va + v.uservec;
        status = user_status r.sstatus;
        epc = load k'.table.ram (tf_addr p tf_epc);
        fn = trampoline_va + v.userret;
        frame = trapframe_va;
        satp = 8 * 2 ^ 60 + p.pagetable / 2 ^ 12;
      },
      k',
    )

-- A trap ends in the process, or the CPU goes to the scheduler: for good, or to continue in the call or behind `yield`.
pub data Trap : Type 0 where
  to_user : Entry → Kernel → Trap
  ended : Kernel → Trap
  in_call : Kernel → Trap
  yielded : Kernel → Trap

abbrev pub exit_killed : ℕ → Kernel → Trap
exit_killed i k = ended (with_table (exit_process minus_one i k.table) k)

-- The end of `usertrap`, also of a process that runs again behind `yield`.
unfoldable pub leave_trap : Vectors → Csr → ℕ → Kernel → Trap
unfolding usertrapret
leave_trap v r i k =
    if (proc_of i k).killed
    then exit_killed i k
    else (let u = usertrapret v r i k in to_user u.0 u.1)

abbrev pub after_call : Vectors → Csr → ℕ → Result → Trap
after_call v r i (returned n k) = leave_trap v r i k
after_call v r i (asleep k) = in_call k
after_call v r i (gone k) = ended k

abbrev pub print_trap : Csr → ℕ → Kernel → Kernel
print_trap r pid k =
    print
      (printf (codes "usertrap(): unexpected scause %p pid=%d\n")
          (number r.scause ∷ number pid ∷ [])
        ++ printf (codes "            sepc=%p stval=%p\n") (number r.sepc ∷ number r.stval ∷ []))
      k

abbrev pub set_killed : ℕ → Kernel → Kernel
set_killed i k = with_table (set_proc i (record (proc_of i k) { killed = true }) k.table) k

-- `usertrap` of process `i`.
unfoldable pub usertrap : Env → Vectors → Csr → ℕ → Kernel → Outcome Trap
unfolding leave_trap
usertrap e v r i k =
    if r.sstatus / 2 ^ 8 % 2 == 1
    then panic "usertrap: not from user mode"
    else (let k₁ = set_word i tf_epc r.sepc k in
        if r.scause == 8
        then (if (proc_of i k₁).killed
            then done (exit_killed i k₁)
            else syscall e i (set_word i tf_epc (add64 r.sepc 4) k₁) >>= λ x.
                done (after_call v r i x))
        else (if is_timer r.scause
            then done (yielded (with_table (yield i k₁.table) k₁))
            else done (leave_trap v r i (set_killed i (print_trap r (proc_of i k₁).pid k₁)))))
