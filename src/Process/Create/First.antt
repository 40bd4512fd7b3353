-- ===== src/Process/Create/First.antt =====
-- kernel/proc.c: the process table that `user_init` leaves.
use native.Mathlib.Decide.{ℕ_discrete}
use riscvos.Common.{
  ℕ, zero, suc, ◌+◌, ◌*◌, ◌/◌, ◌≡◌, ◌≢◌, sym, ap, ◌∙◌, subst, inl, inr, none, arith,
}
use riscvos.Common.Outcome.{Ensures, returns, Ensures->>=, Settles, Ensures-option, Ensures-if}
use riscvos.Memory.Pmm.{pgsize}
use riscvos.Memory.Vm.{Ram, map_page, clear_page}
use riscvos.Process.{Proc, Table, unused, used, runnable, running, set_proc, safestrcpy}
use riscvos.Process.Create.{Link, new_page, set_ram}
use riscvos.Process.Create.Allocating.{
  or_fault-Settles, Allocated, Spared, Made, alloc_process-Made,
}
use riscvos.Process.Create.Pids.{OwnPids, Births-OwnPids}
use riscvos.Process.Create.Start.{load_pages, program_page, start_init, user_init, init_name}

-- A process that has not started, or the first process, ready to run.
pub data Waits (l : Link) (p : Proc) : Type 0 where
  absent : p.state ≡ unused → Waits l p
  reserved : p.state ≡ used → Waits l p
  starts : p.state ≡ runnable → p.pid ≡ 1 → p.parent ≡ none → p.ra ≡ l.usertrapret → Waits l p

-- No process runs, at most the one in `slot` is ready to run, and no two slots in use share a pid.
pub record OnlyInit (l : Link) (t : Table) : Type 0 where
  pub current : t.current ≡ none
  pub slot : ℕ
  pub first : Waits l (t.proc slot)
  pub others : (j : ℕ) → j ≢ slot → (t.proc j).state ≢ runnable
  pub each : (j : ℕ) → Waits l (t.proc j)
  pub pids : OwnPids t

load_pages-Settles : (l : Link) (k pt i : ℕ) (m : Ram) → Settles (load_pages l k pt i m)
unfolding load_pages
load_pages-Settles l zero pt i m = returns tt
load_pages-Settles l (suc k) pt i m =
    Ensures-option (new_page m).0 (λ _. returns tt)
      (λ mem _.
        Ensures->>=
          (or_fault-Settles
            (map_page pt (i * pgsize) mem 30 (program_page l (i * pgsize) mem (new_page m).1)))
          (λ m' _. load_pages-Settles l k pt (i + 1) m'))

Waits-quiet : (l : Link) (p : Proc) → Waits l p → p.state ≢ running
Waits-quiet l p (absent e) r = cc (e, r)
Waits-quiet l p (reserved e) r = cc (e, r)
Waits-quiet l p (starts e x y z) r = cc (e, r)

-- One slot at most in use, by a process with pid 1.
first-OwnPids :
    (l : Link) (c : ℕ) (u : Table)
    → u.current ≡ none
    → ((j : ℕ) → j ≢ c → (u.proc j).state ≡ unused)
    → Waits l (u.proc c)
    → (u.proc c).pid ≡ 1
    → u.nextpid ≡ 2
    → OwnPids u
first-OwnPids l c u idle free w pid next = record {
  one = record {
    only = λ j e. elim (ℕ_discrete j c) [
      | yes q ↦ absurd (Waits-quiet l (u.proc c) w (subst (λ k. (u.proc k).state ≡ running) q e))
      | no ne ↦ cc (free j ne, e)
    ];
    runs = λ j e. cc (idle, e);
  };
  below = λ j e. elim (ℕ_discrete j c) [
    | yes q ↦ omega (arith, ap (λ k. (u.proc k).pid) q, pid, next)
    | no ne ↦ absurd (e (free j ne))
  ];
  apart = λ i j e g h. elim (ℕ_discrete i c) [
    | yes q ↦ elim (ℕ_discrete j c) [ yes r ↦ q ∙ sym r | no ne ↦ absurd (g (free j ne)) ]
    | no ne ↦ absurd (e (free i ne))
  ];
}

-- One process more, which is not running.
with_first :
    (l : Link) (c : ℕ) (t u : Table)
    → t.current ≡ none
    → ((j : ℕ) → (t.proc j).state ≡ unused)
    → u.current ≡ t.current
    → ((j : ℕ) → j ≢ c → u.proc j ≡ t.proc j)
    → Waits l (u.proc c)
    → (u.proc c).pid ≡ 1
    → u.nextpid ≡ 2
    → OnlyInit l u
with_first l c t u idle free cur same w pid next = record {
  current = cur ∙ idle;
  slot = c;
  first = w;
  others = λ j ne e. cc (ap (λ p. p.state) (same j ne), free j, e);
  each = λ j. elim (ℕ_discrete j c) [
    | yes e ↦ subst (λ k. Waits l (u.proc k)) (sym e) w
    | no ne ↦ absent (ap (λ p. p.state) (same j ne) ∙ free j)
  ];
  pids =
      first-OwnPids l c u (cur ∙ idle) (λ j ne. ap (λ p. p.state) (same j ne) ∙ free j) w pid next;
}

start_init-OnlyInit :
    (l : Link) (c va : ℕ) (t u : Table)
    → t.current ≡ none
    → ((j : ℕ) → (t.proc j).state ≡ unused)
    → u.current ≡ t.current
    → ((j : ℕ) → j ≢ c → u.proc j ≡ t.proc j)
    → (u.proc c).state ≡ used
    → (u.proc c).pid ≡ 1
    → u.nextpid ≡ 2
    → (u.proc c).parent ≡ none
    → Ensures (OnlyInit l) (start_init l c va u)
unfolding start_init
start_init-OnlyInit l c va t u idle free cur same st pid next par =
    Ensures-option (new_page u.ram).0
      (λ _. returns (
        with_first l c t _ idle free cur (λ j ne. ground (arith, same j ne))
          (reserved (ground (arith, st))) (ground (arith, pid)) next))
      (λ stack _.
        Ensures->>=
          (or_fault-Settles
            (map_page (u.proc c).pagetable va stack 22 (clear_page stack (new_page u.ram).1)))
          (λ m _. returns (
            with_first l c t _ idle free cur (λ j ne. ground (arith, same j ne))
              (starts (ground arith) (ground (arith, pid)) (ground (arith, par)) (ground arith))
              (ground (arith, pid)) next)))

module _ (l : Link) (t : Table) (idle : t.current ≡ none)
    (free : (j : ℕ) → (t.proc j).state ≡ unused) (one : t.nextpid ≡ 1) where
  t-OwnPids : OwnPids t
  t-OwnPids = record {
    one = record { only = λ j e. cc (free j, e); runs = λ j e. cc (idle, e) };
    below = λ j e. absurd (e (free j));
    apart = λ i j e g h. absurd (e (free i));
  }

  spared : (u : Table) → Spared t u → OnlyInit l u
  spared u p = record {
    current = p.current ∙ idle;
    slot = 0;
    first = each 0;
    others = λ j ne e. elim (p.none_runs j (free j)) [
      | inl q ↦ cc (ap (λ (x : Proc). x.state) q, free j, e)
      | inr q ↦ cc (q, e)
    ];
    each = each;
    pids = Births-OwnPids (omega (arith, one)) t-OwnPids p.births;
  }
    where
      each : (j : ℕ) → Waits l (u.proc j)
      each j = elim (p.none_runs j (free j)) [
        | inl q ↦ absent (ap (λ (x : Proc). x.state) q ∙ free j)
        | inr q ↦ reserved q
      ]

  -- From a table of unused slots that has given no pid, `user_init` leaves one in which no process runs, none is ready but the first, and no
  -- two slots in use share a pid.
  pub user_init-OnlyInit : Ensures (OnlyInit l) (user_init l t)
  unfolding user_init
  user_init-OnlyInit = Ensures->>= (alloc_process-Made l t) (λ r w.
      Ensures-option r.0 (λ z. returns (spared r.1 (subst (λ o. Made t (o, r.1)) z w)))
        (λ c z.
          let a : Allocated t c r.1 = subst (λ o. Made t (o, r.1)) z w in
          let pages : ℕ = (l.program_size + 4095) / pgsize in
          let p : Proc = record (r.1.proc c) {
            parent = none;
            name = safestrcpy (r.1.proc c).name init_name 15 0;
          } in
          Ensures->>= (load_pages-Settles l pages (r.1.proc c).pagetable 0 r.1.ram) (λ b _.
            let u : Table = set_ram b.1 (set_proc c p r.1) in
            Ensures-if b.0
              (λ _.
                start_init-OnlyInit l c (pages * pgsize) t u idle free a.current
                  (λ j ne. ground (arith, a.others j ne)) (ground (arith, a.state))
                  (ground (arith, a.pid, one)) (omega (arith, a.nextpid, one)) (ground arith))
              (λ _. returns (
                with_first l c t u idle free a.current (λ j ne. ground (arith, a.others j ne))
                  (reserved (ground (arith, a.state))) (ground (arith, a.pid, one))
                  (omega (arith, a.nextpid, one)))))))
