-- ===== src/System/Interrupts.antt =====
-- kernel/exception.c and kernel/timer.c, which no other file calls: the report of an exception, and the first timer interrupt.
use Prim.Native.Nat.{bit_or}
use riscvos.Common.{ℕ, ◌^◌, List, [], ◌∷◌, ◌++◌, ◌==◌, if◌then◌else◌}
use riscvos.Common.Outcome.{Outcome, hang}
use riscvos.Common.Word.{add64}
use riscvos.Console.Printf.{number, codes, printf}
use riscvos.System.Trap.{Csr}

-- The switch over `scause`.
unfoldable pub exception_text : Csr → List ℕ
unfolding printf
exception_text r =
    if r.scause == 8
    then printf (codes "[exception] Environment call from U-mode at sepc=0x%x\n")
        (number r.sepc ∷ [])
    else (if r.scause == 9
        then printf (codes "[exception] Environment call from S-mode at sepc=0x%x\n")
            (number r.sepc ∷ [])
        else (if r.scause == 12
            then printf (codes "[exception] Instruction page fault at va=0x%x\n")
                (number r.stval ∷ [])
            else (if r.scause == 13
                then printf (codes "[exception] Load page fault at va=0x%x\n") (number r.stval ∷ [])
                else (if r.scause == 15
                    then printf (codes "[exception] Store/AMO page fault at va=0x%x\n")
                        (number r.stval ∷ [])
                    else printf (codes "[exception] Unknown exception scause=0x%x at sepc=0x%x\n")
                        (number r.scause ∷ number r.sepc ∷ [])))))

-- What it prints, and that it does not come back: the CPU waits in `wfi` for ever.
unfoldable pub handle_exception : Csr → List ℕ × Outcome (List ℕ)
unfolding exception_text
handle_exception r = (
  printf (codes "[exception] scause=0x%x, sepc=0x%x, stval=0x%x\n")
        (number r.scause ∷ number r.sepc ∷ number r.stval ∷ [])
      ++ exception_text r,
  hang "wfi",
)

-- The registers of a call of the firmware.
pub record Ecall : Type 0 where
  pub a0 : ℕ
  pub a6 : ℕ
  pub a7 : ℕ

-- The clock, the calls of the firmware so far, newest first, and the registers that enable interrupts.
pub record Timer : Type 0 where
  pub time : ℕ
  pub ecalls : List Ecall
  pub sie : ℕ
  pub sstatus : ℕ

-- `TIMER_INTERVAL`.
abbrev timer_interval : ℕ
timer_interval = 1000000

abbrev sbi_set_timer : ℕ → Timer → Timer
sbi_set_timer stime t = record t {
  ecalls = (record { a0 = stime; a6 = 0; a7 = 1414090053 }) ∷ t.ecalls;
}

-- The interrupts of the timer, bit 5 of `sie`, and those of the kernel, bit 1 of `sstatus`.
unfoldable pub timer_init : Timer → Timer
timer_init t =
    let set = sbi_set_timer (add64 t.time timer_interval) t in
    record set { sie = bit_or set.sie (2 ^ 5); sstatus = bit_or set.sstatus 2 }
