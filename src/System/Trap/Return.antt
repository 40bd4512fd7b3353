-- ===== src/System/Trap/Return.antt =====
-- kernel/trap.c: with what a trap goes back to its process.
use riscvos.Common.{
  ℕ, ◌+◌, ◌/◌, ◌%◌, ◌^◌, ◌<◌, ◌≡◌, refl, ◌∙◌, Bool, true, false, ◌==◌, arith, if◌then◌else◌,
}
use riscvos.Common.Outcome.{Ensures, returns, panics, Ensures->>=, Ensures-if}
use riscvos.Common.Word.{add64}
use riscvos.Memory.Pmm.{pgsize}
use riscvos.Memory.Vm.{load}
use riscvos.Process.Create.{tf_addr}
use riscvos.System.{Kernel, proc_of}
use riscvos.System.Calls.{Env, Result, returned, asleep, gone}
use riscvos.System.Trap.{
  Csr, Vectors, Entry, Trap, to_user, ended, in_call, yielded, usertrapret, leave_trap, usertrap,
  after_call, is_timer, set_word, set_killed, exit_killed, tf_epc, print_trap,
}
use riscvos.System.Idle.{IdleKernel}
use riscvos.System.Idle.Calls.{IdleResult, IsCaller, syscall-IdleResult}

-- The registers for `userret` and the trapframe of process `i`, from the registers and the kernel before.
pub record Prepared (v : Vectors) (r : Csr) (i : ℕ) (k : Kernel) (u : Entry × Kernel) : Type 0 where
  pub spp : u.0.status / 2 ^ 8 % 2 ≡ r.sstatus / 2 ^ 8 % 2
  pub low_bits : u.0.status % 2 ^ 8 ≡ 2 ^ 5
  pub epc : u.0.epc ≡ load k.table.ram (tf_addr (proc_of i k) 3)
  pub kernel_satp : load u.1.table.ram (tf_addr (proc_of i k) 0) ≡ r.satp
  pub kernel_sp : load u.1.table.ram (tf_addr (proc_of i k) 1) ≡ (proc_of i k).kstack + pgsize
  pub kernel_trap : load u.1.table.ram (tf_addr (proc_of i k) 2) ≡ v.usertrap
  pub kernel_hartid : load u.1.table.ram (tf_addr (proc_of i k) 4) ≡ 0
  pub registers :
      (n : ℕ)
      → 4 < n
      → load u.1.table.ram (tf_addr (proc_of i k) n) ≡ load k.table.ram (tf_addr (proc_of i k) n)

-- `usertrapret` sets SPIE, clears the other low bits of `sstatus` and leaves SPP as it is; it goes back to the saved `epc`, leaves
-- the process's registers in the trapframe, and puts there the page table, the stack, the handler and the
-- hart number 0 that the next trap loads.
pub usertrapret-Prepared :
    (v : Vectors) (r : Csr) (i : ℕ) (k : Kernel) → Prepared v r i k (usertrapret v r i k)
unfolding usertrapret
usertrapret-Prepared v r i k = record {
  spp = omega arith;
  low_bits = omega arith;
  epc = ground arith;
  kernel_satp = ground arith;
  kernel_sp = ground arith;
  kernel_trap = ground arith;
  kernel_hartid = ground arith;
  registers = λ n h. ground arith;
}

-- What a trap of process `i` ends in.
abbrev pub Left : ℕ → Trap → Type 0
Left i (to_user u k) = ((proc_of i k).killed ≡ false) × (u.status / 2 ^ 8 % 2 ≡ 0) × IdleKernel k
Left i (ended k) = IdleKernel k
Left i (in_call k) = IdleKernel k
Left i (yielded k) = IdleKernel k

pub leave_trap-Left :
    (v : Vectors) (r : Csr) (i : ℕ) (k : Kernel)
    → r.sstatus / 2 ^ 8 % 2 ≡ 0
    → IdleKernel k
    → Left i (leave_trap v r i k)
unfolding leave_trap
leave_trap-Left v r i k user h = by_flag (proc_of i k).killed refl
  where
    by_flag :
        (b : Bool)
        → (proc_of i k).killed ≡ b
        → Left i
            (if b then exit_killed i k else to_user (usertrapret v r i k).0 (usertrapret v r i k).1)
    by_flag true e = h
    by_flag false e = (e, (usertrapret-Prepared v r i k).spp ∙ user, h)

pub after_call-Left :
    (v : Vectors) (r : Csr) (i : ℕ) (x : Result)
    → r.sstatus / 2 ^ 8 % 2 ≡ 0
    → IdleResult x
    → Left i (after_call v r i x)
after_call-Left v r i (returned n k) user h = leave_trap-Left v r i k user h
after_call-Left v r i (asleep k) user h = h
after_call-Left v r i (gone k) user h = h

-- A trap from user mode, of a process that runs with a size more than 2^32 below the end of the address space, on an idle log. It goes back to user mode only if the process is not
-- killed, with SPP clear, and wherever it ends the log is idle. It never waits for ever for the log's lock or for room in the
-- log, nor in the loops of `sys_read`, `sys_write`, `balloc`, `fork` and `sbrk`.
pub usertrap-Left :
    (e : Env) (v : Vectors) (r : Csr) (i : ℕ) (k : Kernel)
    → IsCaller i k
    → IdleKernel k
    → Ensures (Left i) (usertrap e v r i k)
unfolding usertrap
usertrap-Left e v r i k w h =
    Ensures-if (r.sstatus / 2 ^ 8 % 2 == 1) (λ _. panics)
      (λ ne.
        let user : r.sstatus / 2 ^ 8 % 2 ≡ 0 = ground arith in
        let k₁ : Kernel = set_word i tf_epc r.sepc k in
        Ensures-if (r.scause == 8)
          (λ _.
            Ensures-if (proc_of i k₁).killed (λ _. returns h)
              (λ _.
                Ensures->>=
                  (syscall-IdleResult e i (set_word i tf_epc (add64 r.sepc 4) k₁)
                    (record { runs = w.runs; fits = w.fits }) h)
                  (λ x h₁. returns (after_call-Left v r i x user h₁))))
          (λ _.
            Ensures-if (is_timer r.scause) (λ _. returns h)
              (λ _. returns (
                leave_trap-Left v r i (set_killed i (print_trap r (proc_of i k₁).pid k₁)) user h))))
