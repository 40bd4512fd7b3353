-- ===== src/System/Calls.antt =====
-- kernel/sysproc.c and kernel/syscall.c: the calls on processes, and the table of system calls.
use riscvos.Common.{
  ℕ, ◌+◌, ◌-◌, ◌*◌, ◌/◌, ◌%◌, ◌^◌, Option, none, some, List, [], ◌∷◌, ◌++◌, ◌==◌, ◌&&◌, not,
  if◌then◌else◌,
}
use riscvos.Common.Outcome.{Outcome, done, ◌>>=◌}
use riscvos.Common.Word.{slt}
use riscvos.Memory.Pmm.{pgsize}
use riscvos.Memory.Vm.{load, store, user_page, put_bytes}
use riscvos.Process.{Table, reaped, childless, waits, wait_pass, awake, exit_process, kill}
use riscvos.Process.Create.{Link, fork, sbrk, sign_extend, tf_addr, tf_a0}
use riscvos.Console.Klog.{log_dump, log_stats}
use riscvos.Console.Printf.{number, codes, printf, console_puts}
use riscvos.System.{Kernel, minus_one, with_table, proc_of, argint, argaddr}
use riscvos.System.Open.{sys_open, sys_close}
use riscvos.System.Remove.{sys_unlink}
use riscvos.System.Transfer.{sys_read, sys_write}

-- What the calls use beside the state: what the linker places, the clock, and the array `name` of `sys_open` and `sys_unlink`.
pub record Env : Type 0 where
  pub link : Link
  pub time : ℕ
  pub stack : ℕ → ℕ

-- A call returns, or its process sleeps in `wait_process`, or ends.
pub data Result : Type 0 where
  returned : ℕ → Kernel → Result
  asleep : Kernel → Result
  gone : Kernel → Result

abbrev pub result : ℕ × Kernel → Result
result r = returned r.0 r.1

-- What `printf` of the kernel sends.
abbrev pub print : List ℕ → Kernel → Kernel
print cs k = record k { line = console_puts cs k.line }

abbrev pub sys_fork : Env → ℕ → Kernel → Outcome Result
sys_fork e i k = fork e.link i k.table >>= λ r.
    done (returned (elim r.0 [ none ↦ minus_one | some pid ↦ pid ]) (with_table r.1 k))

abbrev pub sys_exit : Env → ℕ → Kernel → Outcome Result
sys_exit e i k = done (gone (with_table (exit_process (argint 0 i k) i k.table) k))

-- The store of the exit code, for an address of the process.
unfoldable pub store_status : ℕ → ℕ → ℕ → Table → Table
store_status i addr status t = elim (user_page (t.proc i).pagetable addr t.ram) [
  | none ↦ t
  | some pa ↦ record t {
    ram = put_bytes (pa + addr % pgsize) (λ j. status / 2 ^ (8 * j) % 256) 0 4 t.ram;
  }
]

-- `sys_wait` from a pass of `wait_process` on.
unfoldable pub wait_from : ℕ → ℕ → Kernel → Result
unfolding store_status
wait_from addr i k = elim (wait_pass i k.table) [
  | reaped pid status t ↦
      returned pid
        (with_table (if slt 0 pid && not (addr == 0) then store_status i addr status t else t) k)
  | childless t ↦ returned minus_one (with_table t k)
  | waits t ↦ asleep (with_table t k)
]

-- `sys_wait` when its process runs again after a sleep.
unfoldable pub wait_again : ℕ → ℕ → Kernel → Result
unfolding wait_from
wait_again addr i k = wait_from addr i (with_table (awake i k.table) k)

abbrev pub sys_wait : Env → ℕ → Kernel → Outcome Result
sys_wait e i k = done (wait_from (argaddr 0 i k) i k)

abbrev pub sys_kill : Env → ℕ → Kernel → Outcome Result
sys_kill e i k =
    let r = kill (argint 0 i k) k.table in
    done (returned (if r.0 then 0 else minus_one) (with_table r.1 k))

abbrev pub sys_getpid : Env → ℕ → Kernel → Outcome Result
sys_getpid e i k = done (returned (proc_of i k).pid k)

abbrev pub sys_sbrk : Env → ℕ → Kernel → Outcome Result
sys_sbrk e i k = sbrk (argint 0 i k) i k.table >>= λ r.
    done (returned (elim r.0 [ none ↦ minus_one | some a ↦ a % 2 ^ 32 ]) (with_table r.1 k))

abbrev pub sys_uptime : Env → ℕ → Kernel → Outcome Result
sys_uptime e i k = done (returned (e.time % 2 ^ 32) k)

abbrev pub sys_logdump : Env → ℕ → Kernel → Outcome Result
sys_logdump e i k = done (
    returned 0 (
      print
        (codes "\n=== Log Buffer Dump ===\n" ++ (log_dump k.log ++ codes "\n=== End of Log ===\n"))
        k))

abbrev pub sys_logstat : Env → ℕ → Kernel → Outcome Result
sys_logstat e i k = done (returned 0 (print (log_stats k.log) k))

-- The table `syscalls`. A number without an entry is 0, negative, too large or has a null pointer.
abbrev pub syscalls : List (ℕ × (Env → ℕ → Kernel → Outcome Result))
syscalls =
    (1, sys_fork)
    ∷ (2, sys_exit)
    ∷ (3, sys_wait)
    ∷ (5, λ e i k. sys_read i k >>= λ r. done (result r))
    ∷ (6, sys_kill)
    ∷ (11, sys_getpid)
    ∷ (12, sys_sbrk)
    ∷ (14, sys_uptime)
    ∷ (15, λ e i k. sys_open e.stack i k >>= λ r. done (result r))
    ∷ (16, λ e i k. sys_write i k >>= λ r. done (result r))
    ∷ (18, λ e i k. sys_unlink e.stack i k >>= λ r. done (result r))
    ∷ (21, λ e i k. sys_close i k >>= λ r. done (result r))
    ∷ (22, sys_logdump)
    ∷ (23, sys_logstat)
    ∷ []

abbrev pub find_call {ℓ} : {A : Type ℓ} → ℕ → List (ℕ × A) → Option A
find_call n [] = none
find_call n (e ∷ es) = if e.0 == n then some e.1 else find_call n es

-- `a7`.
abbrev pub tf_a7 : ℕ
tf_a7 = 21

abbrev pub set_a0 : ℕ → ℕ → Kernel → Kernel
set_a0 i v k =
    with_table (record k.table { ram = store (tf_addr (proc_of i k) tf_a0) v k.table.ram }) k

abbrev pub set_result : ℕ → Result → Result
set_result i (returned v k) = returned v (set_a0 i (sign_extend v) k)
set_result i (asleep k) = asleep k
set_result i (gone k) = gone k

abbrev pub call_number : ℕ → Kernel → ℕ
call_number i k = load k.table.ram (tf_addr (proc_of i k) tf_a7) % 2 ^ 32

unfoldable pub syscall : Env → ℕ → Kernel → Outcome Result
syscall e i k = elim (find_call (call_number i k) syscalls) [
  | some f ↦ f e i k >>= λ r. done (set_result i r)
  | none ↦ done (
      returned minus_one (
        set_a0 i (2 ^ 64 - 1)
          (print (printf (codes "Unknown syscall %d\n") (number (call_number i k) ∷ [])) k)))
]
