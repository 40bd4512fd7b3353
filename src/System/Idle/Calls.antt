-- ===== src/System/Idle/Calls.antt =====
-- kernel/syscall.c: every system call on an idle log.
use riscvos.Common.{
  true, ℕ, zero, suc, ◌+◌, ◌/◌, ◌%◌, ◌^◌, ◌≡◌, refl, subst, inl, inr, Bool-cases, if_true, if_false,
  some, List, [], ◌∷◌, ltb, ◌==◌, ◌&&◌, ◌*◌, ◌<◌, ◌≤◌, arith,
}
use riscvos.Common.Outcome.{
  Outcome, done, ◌>>=◌, Ensures, Settles, returns, Ensures->>=, Ensures-if, Ensures-bool,
  Ensures-option, Ensures-imp,
}
use riscvos.Memory.Pmm.{pgsize, pg_round_up}
use riscvos.Memory.Vm.{Ram, clear_page, map_page}
use riscvos.Process.{Table, Wait, reaped, childless, waits, wait_pass}
use riscvos.Process.Create.{Link, fork, sbrk, grow_pages, new_page, sign_extend}
use riscvos.Process.Create.Allocating.{or_fault-Settles}
use riscvos.System.{Kernel, proc_of, argint, argaddr}
use riscvos.Process.{running}
use riscvos.Process.Create.Forking.{fork-Forked}
use riscvos.System.Calls.{
  Env, Result, returned, asleep, gone, result, find_call, syscalls, set_result, syscall,
  call_number, wait_from,
}
use riscvos.System.Idle.{IdleKernel, IdleCall}
use riscvos.System.Idle.Files.{sys_open-IdleCall, sys_close-IdleCall, sys_unlink-IdleCall}
use riscvos.System.Idle.Transfers.{sys_read-IdleCall, sys_write-IdleCall}

-- The process that makes a call runs, and its size is not within 2^32 of the end of the address space, where the loops of `fork` and
-- `sbrk` wrap around.
pub record IsCaller (i : ℕ) (k : Kernel) : Type 0 where
  pub runs : (proc_of i k).state ≡ running
  pub fits : (proc_of i k).sz + 2 ^ 32 ≤ 2 ^ 64

abbrev pub IdleResult : Result → Type 0
IdleResult (returned v k) = IdleKernel k
IdleResult (asleep k) = IdleKernel k
IdleResult (gone k) = IdleKernel k

fork-Settles :
    (l : Link) (i : ℕ) (t : Table)
    → (t.proc i).state ≡ running
    → (t.proc i).sz + pgsize ≤ 2 ^ 64
    → Settles (fork l i t)
fork-Settles l i t run room = Ensures-imp (λ r _. tt) (fork-Forked l i t run room)

-- The loop of `sbrk` up to a size that does not reach into the last page.
grow_pages-Settles :
    (k pt top a : ℕ) (m : Ram)
    → top + pgsize ≤ 2 ^ 64
    → (1 ≤ k) × (top + pgsize ≤ a + k * pgsize)
    → Settles (grow_pages k pt top a m)
unfolding grow_pages
grow_pages-Settles zero pt top a m room fuel = absurd (omega (arith, fuel))
grow_pages-Settles (suc k) pt top a m room fuel =
    Ensures-bool (ltb a top)
      (λ on.
        Ensures-option (new_page m).0 (λ _. returns tt)
          (λ mem _.
            Ensures->>= (or_fault-Settles (map_page pt a mem 30 (clear_page mem (new_page m).1)))
              (λ m' _. grow_pages-Settles k pt top ((a + pgsize) % 2 ^ 64) m' room (left on))))
      (λ _. returns tt)
  where
    left : ltb a top ≡ true → (1 ≤ k) × (top + pgsize ≤ (a + pgsize) % 2 ^ 64 + k * pgsize)
    left on = let lt : a < top = ground arith in (omega (arith, fuel), omega (arith, fuel))

sbrk-Settles : (n i : ℕ) (t : Table) → (t.proc i).sz + 2 ^ 32 ≤ 2 ^ 64 → Settles (sbrk n i t)
unfolding sbrk
sbrk-Settles n i t fits =
    Ensures-if (ltb 0 n && ltb n (2 ^ 31))
      (λ grows.
        let small : n < 2 ^ 31 = ground arith in
        let extended : sign_extend n ≡ n = ground arith in
        let top : ((t.proc i).sz + sign_extend n) % 2 ^ 64 ≡ (t.proc i).sz + n =
          omega (arith, extended, small, fits) in
        Ensures->>=
          (grow_pages-Settles (n / pgsize + 2 ^ 20) (t.proc i).pagetable
            (((t.proc i).sz + sign_extend n) % 2 ^ 64) (pg_round_up (t.proc i).sz % 2 ^ 64) t.ram
            (omega (arith, top, small, fits)) (omega arith, omega (arith, top, small, fits)))
          (λ b _. returns tt))
      (λ _. returns tt)

pub wait_from-IdleResult :
    (addr i : ℕ) (k : Kernel) → IdleKernel k → IdleResult (wait_from addr i k)
unfolding wait_from
wait_from-IdleResult addr i k h = by_pass (wait_pass i k.table) refl
  where
    by_pass : (w : Wait) → wait_pass i k.table ≡ w → IdleResult (wait_from addr i k)
    by_pass (reaped pid status t) e = rw (e, wait_from, IdleResult) h
    by_pass (childless t) e = rw (e, wait_from, IdleResult) h
    by_pass (waits t) e = rw (e, wait_from, IdleResult) h

pub set_result-IdleResult : (i : ℕ) (r : Result) → IdleResult r → IdleResult (set_result i r)
set_result-IdleResult i (returned v k) h = h
set_result-IdleResult i (asleep k) h = h
set_result-IdleResult i (gone k) h = h

-- A system call that keeps the log idle, and a table of such calls.
abbrev KeepsIdle : (Env → ℕ → Kernel → Outcome Result) → Type 0
KeepsIdle f =
    (e : Env) (i : ℕ) (k : Kernel) → IsCaller i k → IdleKernel k → Ensures IdleResult (f e i k)

abbrev AllKeep : List (ℕ × (Env → ℕ → Kernel → Outcome Result)) → Type 0
AllKeep [] = Unit
AllKeep (c ∷ cs) = KeepsIdle c.1 × AllKeep cs

some_payload {ℓ} : {A : Type ℓ} {a b : A} → some a ≡ some b → a ≡ b
some_payload e = cc

find_call-KeepsIdle :
    (n : ℕ) (cs : List (ℕ × (Env → ℕ → Kernel → Outcome Result)))
    (f : Env → ℕ → Kernel → Outcome Result)
    → AllKeep cs
    → find_call n cs ≡ some f
    → KeepsIdle f
find_call-KeepsIdle n [] f a e = cc
find_call-KeepsIdle n (c ∷ cs) f a e = elim (Bool-cases (c.0 == n)) [
  | inl y ↦
      let same : c.1 ≡ f = some_payload (if_true (some c.1) (find_call n cs) y e) in
      subst KeepsIdle same a.0
  | inr m ↦ find_call-KeepsIdle n cs f a.1 (if_false (some c.1) (find_call n cs) m e)
]

of_call :
    {m : Outcome (ℕ × Kernel)}
    → Ensures IdleCall m
    → Ensures IdleResult (m >>= λ r. done (result r))
of_call h = Ensures->>= h (λ r h₁. returns h₁)

all_keep : AllKeep syscalls
all_keep = (
  λ e i k w h.
      Ensures->>= (fork-Settles e.link i k.table w.runs (omega (arith, w.fits))) (λ r _. returns h),
  (
    λ e i k w h. returns h,
    (
      λ e i k w h. returns (wait_from-IdleResult (argaddr 0 i k) i k h),
      (
        λ e i k w h. of_call (sys_read-IdleCall i k h),
        (
          λ e i k w h. returns h,
          (
            λ e i k w h. returns h,
            (
              λ e i k w h.
                  Ensures->>= (sbrk-Settles (argint 0 i k) i k.table w.fits) (λ r _. returns h),
              (
                λ e i k w h. returns h,
                (
                  λ e i k w h. of_call (sys_open-IdleCall e.stack i k h),
                  (
                    λ e i k w h. of_call (sys_write-IdleCall i k h),
                    (
                      λ e i k w h. of_call (sys_unlink-IdleCall e.stack i k h),
                      (
                        λ e i k w h. of_call (sys_close-IdleCall i k h),
                        (λ e i k w h. returns h, (λ e i k w h. returns h, tt)),
                      ),
                    ),
                  ),
                ),
              ),
            ),
          ),
        ),
      ),
    ),
  ),
)

-- A system call by a process that runs, with a size more than 2^32 below the end of the address space, on an idle log: it panics, or it returns, sleeps in
-- `wait_process` or ends the process, and then the log is idle, whichever call it is and whichever path it takes. It never
-- waits for ever for the log's lock or for room in the log, nor in the loops of `sys_read`, `sys_write`, `balloc`, `fork` and `sbrk`.
pub syscall-IdleResult :
    (e : Env) (i : ℕ) (k : Kernel)
    → IsCaller i k
    → IdleKernel k
    → Ensures IdleResult (syscall e i k)
unfolding syscall
syscall-IdleResult e i k w h =
    Ensures-option (find_call (call_number i k) syscalls) (λ _. returns h)
      (λ f z.
        Ensures->>= (find_call-KeepsIdle (call_number i k) syscalls f all_keep z e i k w h)
          (λ r h₁. returns (set_result-IdleResult i r h₁)))
