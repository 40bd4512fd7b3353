-- ===== src/Process/Create/Allocating.antt =====
-- kernel/proc.c: what `alloc_process` does to the process table.
use native.Mathlib.Decide.{ℕ_discrete}
use riscvos.Common.{
  ℕ, zero, suc, ◌+◌, ◌%◌, ◌^◌, ◌<◌, ◌≡◌, refl, ◌≢◌, ap, ◌∙◌, ◌⊎◌, inl, inr, Bool, true, false,
  Option, none, some, arith, ltb, if◌then◌else◌, Bool-cases, if_false, ◌*◌, ◌≤◌,
}
use riscvos.Common.Outcome.{
  Ensures, returns, panics, Ensures->>=, Settles, Ensures-option, Ensures-bool, done,
}
use riscvos.Memory.Pmm.{pgsize}
use riscvos.Memory.Vm.{Ram, create_pagetable, map_page}
use riscvos.Process.{
  Proc, ProcState, Table, is_unused, unused, used, runnable, running, sleeping, zombie, nproc,
}
use riscvos.Process.Create.{
  Link, find_unused, fill_slot, alloc_process, new_page, or_fault, mapped_page, copy_page,
  fork_pages, trampoline_va, trapframe_va,
}

is_unused-eq : (s : ProcState) → is_unused s ≡ true → s ≡ unused
is_unused-eq unused h = refl
is_unused-eq used h = cc
is_unused-eq runnable h = cc
is_unused-eq running h = cc
is_unused-eq sleeping h = cc
is_unused-eq zombie h = cc

-- A slot that is not in use.
find_unused-slot :
    (f : ℕ → Proc) (k i c : ℕ) → find_unused f k i ≡ some c → ((f c).state ≡ unused) × (c < i + k)
unfolding find_unused
find_unused-slot f zero i c e = cc
find_unused-slot f (suc k) i c e = elim (Bool-cases (is_unused (f i).state)) [
  | inl y ↦ let same : i ≡ c = ground arith in rw (← same) (is_unused-eq (f i).state y, omega arith)
  | inr n ↦ let r = find_unused-slot f k (i + 1) c (if_false _ _ n e) in (r.0, omega (arith, r.1))
]

pub or_fault-Settles {ℓ} : {A : Type ℓ} (o : Option A) → Settles (or_fault o)
or_fault-Settles none = panics
or_fault-Settles (some a) = returns tt

pub fork_pages-Settles :
    (k pt child sz va : ℕ) (m : Ram)
    → sz + pgsize ≤ 2 ^ 64
    → (1 ≤ k) × (sz + pgsize ≤ va + k * pgsize)
    → Settles (fork_pages k pt child sz va m)
unfolding fork_pages
fork_pages-Settles zero pt child sz va m room fuel = absurd (omega (arith, fuel))
fork_pages-Settles (suc k) pt child sz va m room fuel =
    Ensures-bool (ltb va sz)
      (λ on.
        Ensures-option (mapped_page pt va m)
          (λ _. fork_pages-Settles k pt child sz ((va + pgsize) % 2 ^ 64) m room (left on))
          (λ pa _.
            Ensures-option (new_page m).0 (λ _. returns tt)
              (λ mem _.
                Ensures->>=
                  (or_fault-Settles (map_page child va mem 30 (copy_page mem pa (new_page m).1)))
                  (λ m' _.
                    fork_pages-Settles k pt child sz ((va + pgsize) % 2 ^ 64) m' room (left on)))))
      (λ _. returns tt)
  where
    left : ltb va sz ≡ true → (1 ≤ k) × (sz + pgsize ≤ (va + pgsize) % 2 ^ 64 + k * pgsize)
    left on = let lt : va < sz = ground arith in (omega (arith, fuel), omega (arith, fuel))

-- What `alloc_process` leaves when it returns a slot: a process with a new pid that does not run yet.
pub record Allocated (t : Table) (c : ℕ) (u : Table) : Type 0 where
  pub slot : c < nproc
  pub free : (t.proc c).state ≡ unused
  pub state : (u.proc c).state ≡ used
  pub pid : (u.proc c).pid ≡ t.nextpid
  pub nextpid : u.nextpid ≡ (t.nextpid + 1) % 2 ^ 32
  pub current : u.current ≡ t.current
  pub others : (j : ℕ) → j ≢ c → u.proc j ≡ t.proc j
  pub killed : (u.proc c).killed ≡ (t.proc c).killed
  pub ofile : (u.proc c).ofile ≡ (t.proc c).ofile

-- The slot of a new process, that does not run.
pub record BornAt (t : Table) (c : ℕ) (u : Table) : Type 0 where
  pub free : (t.proc c).state ≡ unused
  pub quiet : (u.proc c).state ≢ running
  pub pid : (u.proc c).pid ≡ t.nextpid
  pub nextpid : u.nextpid ≡ (t.nextpid + 1) % 2 ^ 32
  pub current : u.current ≡ t.current
  pub others : (j : ℕ) → j ≢ c → u.proc j ≡ t.proc j

-- A call that makes at most one process.
pub data Births (t : Table) : Table → Type 0 where
  unborn :
      {u : Table}
      → ((j : ℕ) → u.proc j ≡ t.proc j)
      → u.nextpid ≡ t.nextpid
      → u.current ≡ t.current
      → Births t u
  born : {u : Table} (c : ℕ) → BornAt t c u → Births t u

-- `fill_slot` with slot `i`, whether or not it returns it.
abbrev Filled : Table → ℕ → Bool × Table → Type 0
Filled t i (true, u) = Allocated t i u
Filled t i (false, u) = BornAt t i u × ((u.proc i).state ≡ used)

fill_slot-Filled :
    (l : Link) (i : ℕ) (t : Table)
    → i < nproc
    → (t.proc i).state ≡ unused
    → Ensures (Filled t i) (fill_slot l i t)
unfolding fill_slot
fill_slot-Filled l i t h free =
    let first = new_page t.ram in
    Ensures-option first.0
      (λ z. returns (
        record {
          free = free;
          quiet = λ e. ground (arith, e);
          pid = ground arith;
          nextpid = refl;
          current = refl;
          others = λ j ne. ground arith;
        },
        ground arith,
      ))
      (λ kstack z. Ensures->>= (or_fault-Settles (create_pagetable first.1)) (λ pt _.
        let second = new_page pt.1 in
        Ensures-option second.0
          (λ z. returns (
            record {
              free = free;
              quiet = λ e. ground (arith, e);
              pid = ground arith;
              nextpid = refl;
              current = refl;
              others = λ j ne. ground arith;
            },
            ground arith,
          ))
          (λ frame z.
            Ensures->>= (or_fault-Settles ((map_page pt.0 trampoline_va l.trampoline 10 second.1)))
              (λ m₁ _.
                Ensures->>= (or_fault-Settles ((map_page pt.0 trapframe_va frame 6 m₁))) (λ m₂ _.
                  returns (record {
                    slot = h;
                    free = free;
                    state = ground arith;
                    pid = ground arith;
                    nextpid = refl;
                    current = refl;
                    others = λ j ne. ground arith;
                    killed = ground arith;
                    ofile = ground arith;
                  }))))))

-- What `alloc_process` leaves. Whatever it returns, it touches a free slot at most.
pub record Spared (t u : Table) : Type 0 where
  pub kept : (j : ℕ) → (t.proc j).state ≢ unused → u.proc j ≡ t.proc j
  pub none_runs :
      (j : ℕ) → (t.proc j).state ≡ unused → (u.proc j ≡ t.proc j) ⊎ ((u.proc j).state ≡ used)
  pub current : u.current ≡ t.current
  pub births : Births t u

abbrev pub Made : Table → Option ℕ × Table → Type 0
Made t (none, u) = Spared t u
Made t (some c, u) = Allocated t c u

pub alloc_process-Made : (l : Link) (t : Table) → Ensures (Made t) (alloc_process l t)
unfolding alloc_process
alloc_process-Made l t =
    Ensures-option (find_unused t.proc nproc 0)
      (λ z. returns (record {
        kept = λ j ne. refl;
        none_runs = λ j e. inl refl;
        current = refl;
        births = unborn (λ j. refl) refl refl;
      }))
      (λ c z.
        let slot = find_unused-slot t.proc nproc 0 c z in
        Ensures->>= (fill_slot-Filled l c t slot.1 slot.0) (λ r. made c slot.0 r))
  where
    made :
        (c : ℕ)
        → (t.proc c).state ≡ unused
        → (r : Bool × Table) → Filled t c r
        → Ensures (Made t) (done (if r.0 then some c else none, r.1))
    made c free (true, u) f = returns f
    made c free (false, u) f = returns (record {
      kept = λ j ne. f.0.others j (λ e. ne (ap (λ k. (t.proc k).state) e ∙ free));
      none_runs = λ j e. elim (ℕ_discrete j c) [
        | yes q ↦ inr (ap (λ k. (u.proc k).state) q ∙ f.1)
        | no q ↦ inl (f.0.others j q)
      ];
      current = f.0.current;
      births = born c f.0;
    })
