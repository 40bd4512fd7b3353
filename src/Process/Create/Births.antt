-- ===== src/Process/Create/Births.antt =====
-- kernel/proc.c: the one process at most that `fork` makes.
use riscvos.Common.{
  ℕ, ◌+◌, ◌/◌, Bool, true, false, Option, none, some, arith, if◌then◌else◌, ◌^◌, ◌≡◌, subst,
}
use riscvos.Common.Outcome.{Ensures, done, Ensures-done, >>=-eq-done}
use riscvos.Memory.Pmm.{pgsize}
use riscvos.Memory.Vm.{Ram}
use riscvos.Process.{Table, unused, set_proc}
use riscvos.Process.Create.{fork_pages, alloc_process, Link, set_ram, start_child, fork_into, fork}
use riscvos.Process.Create.Allocating.{Allocated, Made, BornAt, Births, born, alloc_process-Made}

start_child-BornAt :
    (l : Link) (i c : ℕ) (t u : Table) (m : Ram)
    → Allocated t c u
    → BornAt t c (start_child l i c (set_ram m u))
unfolding start_child
start_child-BornAt l i c t u m a = record {
  free = a.free;
  quiet = λ e. ground (arith, e);
  pid = ground (arith, a.pid);
  nextpid = a.nextpid;
  current = a.current;
  others = λ j ne. ground (arith, a.others j);
}

abbrev abandoned : ℕ → Ram → Table → Table
abandoned c m u = set_proc c (record (u.proc c) { state = unused }) (set_ram m u)

abandoned-BornAt : (c : ℕ) (t u : Table) (m : Ram) → Allocated t c u → BornAt t c (abandoned c m u)
abandoned-BornAt c t u m a = record {
  free = a.free;
  quiet = λ e. ground (arith, e);
  pid = ground (arith, a.pid);
  nextpid = a.nextpid;
  current = a.current;
  others = λ j ne. ground (arith, a.others j);
}

-- What `fork` returns, with a table in which one process at most is new.
abbrev pub Bears : Table → Option ℕ × Table → Type 0
Bears t r = Births t r.1

same_result : {t : Table} {q r : Option ℕ × Table} → Bears t q → done q ≡ done r → Bears t r
same_result {t} {q} {r} b e = let same : q ≡ r = cc in subst (λ x. Births t x.1) same b

pub fork-Births :
    (l : Link) (i : ℕ) (t : Table) (r : Option ℕ × Table) → fork l i t ≡ done r → Bears t r
unfolding fork fork_into
fork-Births l i t r e =
    let (q, e₁, e₂) = >>=-eq-done (alloc_process l t) _ e in
    go q.0 q.1 (Ensures-done (subst (Ensures (Made t)) e₁ (alloc_process-Made l t))) e₂
  where
    filled :
        (c : ℕ) (u : Table) (b : Bool) (m : Ram)
        → Allocated t c u
        → Bears t (
            if b
            then (some (u.proc c).pid, start_child l i c (set_ram m u))
            else (none, abandoned c m u))
    filled c u true m a = born c (start_child-BornAt l i c t u m a)
    filled c u false m a = born c (abandoned-BornAt c t u m a)

    go :
        (o : Option ℕ) (u : Table)
        → Made t (o, u)
        → (elim o [ none ↦ done (none, u) | some c ↦ fork_into l i c u ]) ≡ done r
        → Bears t r
    go none u s q = same_result s.births q
    go (some c) u a q =
        let (b, e₁, e₂) =
          >>=-eq-done
            (fork_pages ((u.proc i).sz / pgsize + 2 ^ 72) (u.proc i).pagetable (u.proc c).pagetable
              (u.proc i).sz 0 u.ram)
            _ q in
        same_result (filled c u b.0 b.1 a) e₂
