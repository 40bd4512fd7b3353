-- ===== src/Process/Create/Forking.antt =====
-- kernel/proc.c: what `fork` does to the process table.
use riscvos.Common.{
  ℕ, ◌+◌, ◌/◌, ◌<◌, ◌≡◌, ◌≢◌, sym, ap, subst, inl, inr, Bool, true, false, Option, none, some,
  arith, if◌then◌else◌, ◌^◌, ◌≤◌,
}
use riscvos.Common.Outcome.{Ensures, returns, Ensures->>=, done}
use riscvos.Memory.Pmm.{pgsize}
use riscvos.Memory.Vm.{Ram, load}
use riscvos.Process.{Table, Proc, unused, runnable, running, nproc, set_proc}
use riscvos.Process.Create.{Link, set_ram, start_child, fork_into, fork, tf_addr, tf_a0}
use riscvos.Process.Create.Allocating.{Allocated, Made, fork_pages-Settles, alloc_process-Made}

-- What `fork` leaves.
pub data Forked (i : ℕ) (t : Table) : Option ℕ × Table → Type 0 where
  forked :
      {u : Table} (c : ℕ)
      → c < nproc
      → (t.proc c).state ≡ unused
      → (u.proc c).state ≡ runnable
      → (u.proc c).pid ≡ t.nextpid
      → (u.proc c).parent ≡ some i
      → (u.proc c).sz ≡ (t.proc i).sz
      → (u.proc c).killed ≡ (t.proc c).killed
      → (u.proc c).ofile ≡ (t.proc c).ofile
      → load u.ram (tf_addr (u.proc c) tf_a0) ≡ 0
      → ((j : ℕ) → j ≢ c → u.proc j ≡ t.proc j)
      → Forked i t (some t.nextpid, u)
  refused :
      {u : Table}
      → ((j : ℕ) → (t.proc j).state ≢ unused → u.proc j ≡ t.proc j)
      → ((j : ℕ) → (t.proc j).state ≡ unused → (u.proc j).state ≢ runnable)
      → Forked i t (none, u)

-- The child's slot once its pages are copied.
start_child-Forked :
    (l : Link) (i c : ℕ) (t v : Table)
    → c ≢ i
    → Allocated t c v
    → Forked i t (some (v.proc c).pid, start_child l i c v)
unfolding start_child
start_child-Forked l i c t v ne a =
    subst (λ p. Forked i t (some p, start_child l i c v)) (sym a.pid)
      (forked c a.slot a.free (ground arith) (ground (arith, a.pid)) (ground arith)
        (ground (arith, a.others i)) (ground (arith, a.killed)) (ground (arith, a.ofile))
        (ground arith) (λ j h. ground (arith, a.others j)))

fork_into-Forked :
    (l : Link) (i c : ℕ) (t u : Table)
    → c ≢ i
    → (t.proc i).sz + pgsize ≤ 2 ^ 64
    → Allocated t c u
    → Ensures (Forked i t) (fork_into l i c u)
unfolding fork_into
fork_into-Forked l i c t u ne room a =
    Ensures->>=
      (fork_pages-Settles ((u.proc i).sz / pgsize + 2 ^ 72) (u.proc i).pagetable
        (u.proc c).pagetable (u.proc i).sz 0 u.ram
        (subst (λ (p : Proc). p.sz + pgsize ≤ 2 ^ 64) (sym (a.others i (λ e. ne (sym e)))) room)
        (omega arith, omega arith))
      (λ b _. copied b.0 b.1)
  where
    copied :
        (b : Bool) (m : Ram)
        → Ensures (Forked i t) (
            done (
              if b
              then (some (u.proc c).pid, start_child l i c (set_ram m u))
              else (none, set_proc c (record (u.proc c) { state = unused }) (set_ram m u))))
    copied true m = returns (
        start_child-Forked l i c t (set_ram m u) ne (record {
          slot = a.slot;
          free = a.free;
          state = a.state;
          pid = a.pid;
          nextpid = a.nextpid;
          current = a.current;
          others = a.others;
          killed = a.killed;
          ofile = a.ofile;
        }))
    copied false m =
        returns (
          refused (λ j used. ground (arith, a.others j, a.free))
            (λ j e. ground (arith, a.others j)))

-- `fork` by a process in state RUNNING, whose size does not reach into the last page of the address space, either makes a runnable child in a free slot, with a fresh pid, its
-- parent's size, 0 as what the call returns there, and the `killed` flag and the open files that the slot had before, or returns -1 and makes no
-- process runnable; no other slot that is in use changes.
pub fork-Forked :
    (l : Link) (i : ℕ) (t : Table)
    → (t.proc i).state ≡ running
    → (t.proc i).sz + pgsize ≤ 2 ^ 64
    → Ensures (Forked i t) (fork l i t)
unfolding fork
fork-Forked l i t run room = Ensures->>= (alloc_process-Made l t) (λ r m. go r.0 r.1 m)
  where
    go :
        (o : Option ℕ) (u : Table)
        → Made t (o, u)
        → Ensures (Forked i t) (elim o [ none ↦ done (none, u) | some c ↦ fork_into l i c u ])
    go none u s = returns (
        refused s.kept
          (λ j e q. elim (s.none_runs j e) [ inl same ↦ ground (arith, same) | inr now ↦ cc ]))
    go (some c) u a =
        fork_into-Forked l i c t u (λ e. cc (a.free, run, ap (λ k. (t.proc k).state) e)) room a
