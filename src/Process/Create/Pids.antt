-- ===== src/Process/Create/Pids.antt =====
-- kernel/proc.c: the pids of the processes, over the calls that Schedule lists and `fork`.
use native.Mathlib.Decide.{ℕ_discrete}
use riscvos.Common.{
  ℕ, ◌+◌, ◌^◌, ◌<◌, ◌≡◌, refl, ◌≢◌, sym, ap, ◌∙◌, subst, ◌⊎◌, inl, inr, Option, some, arith,
  Option-cases,
}
use riscvos.Common.Outcome.{done}
use riscvos.Process.{
  Table, unused, running, nproc, dispatch, yield, sleep, awake, wake, wakeup, exit_process, kill,
  find_pid, reap, back_in_scheduler,
}
use riscvos.Process.Create.{Link, fork}
use riscvos.Process.Create.Allocating.{BornAt, Births, born, unborn}
use riscvos.Process.Schedule.{
  Step, dispatches, yields, sleeps, awakes, wakes, exits, kills, reaps, OneRuns, Step-OneRuns,
}
use riscvos.Process.Create.Births.{fork-Births}

-- A call of Schedule, or `fork` by the process that runs, until the counter of the pids wraps around.
pub data Life : Table → Table → Type 0 where
  moves : {t u : Table} → Step t u → Life t u
  forks :
      {t : Table} (l : Link) (i : ℕ) (r : Option ℕ × Table)
      → t.current ≡ some i
      → t.nextpid + 1 < 2 ^ 32
      → fork l i t ≡ done r
      → Life t r.1

pub data Lives : Table → Table → Type 0 where
  rest : {t : Table} → Lives t t
  next : {t u v : Table} → Lives t u → Life u v → Lives t v

-- At most the current process runs, and no two slots in use have the same pid.
pub record OwnPids (t : Table) : Type 0 where
  pub one : OneRuns t
  pub below : (j : ℕ) → (t.proc j).state ≢ unused → (t.proc j).pid < t.nextpid
  pub apart :
      (i j : ℕ)
      → (t.proc i).state ≢ unused
      → (t.proc j).state ≢ unused
      → (t.proc i).pid ≡ (t.proc j).pid
      → i ≡ j

-- A call that gives no pid.
record Keeps (t u : Table) : Type 0 where
  nextpid : u.nextpid ≡ t.nextpid
  live :
      (j : ℕ)
      → (u.proc j).state ≢ unused
      → ((t.proc j).state ≢ unused) × ((u.proc j).pid ≡ (t.proc j).pid)

Step-Keeps : {t u : Table} → OneRuns t → Step t u → Keeps t u
unfolding dispatch yield sleep awake wakeup exit_process kill reap back_in_scheduler wake
Step-Keeps {t} w (dispatches i h c r) = record { nextpid = refl; live = λ j e. ground (arith, r) }
Step-Keeps {t} w (yields i c) = record { nextpid = refl; live = λ j e. ground (arith, w.runs i c) }
Step-Keeps {t} w (sleeps ch i c) = record {
  nextpid = refl;
  live = λ j e. ground (arith, w.runs i c);
}
Step-Keeps {t} w (awakes i c) = record { nextpid = refl; live = λ j e. ground (arith, w.runs i c) }
Step-Keeps {t} w (wakes ch i c) = record {
  nextpid = refl;
  live = λ j e. ground (arith, w.runs i c);
}
Step-Keeps {t} w (exits st i c) = record {
  nextpid = ground (arith, Option-cases (t.proc i).parent);
  live = λ j e. ground (arith, w.runs i c, Option-cases (t.proc i).parent);
}
Step-Keeps {t} w (kills pid i c) = record {
  nextpid = ground (arith, Option-cases (find_pid pid t.proc nproc 0));
  live = λ j e. ground (arith, Option-cases (find_pid pid t.proc nproc 0));
}
Step-Keeps {t} w (reaps ch i c z) = record { nextpid = refl; live = λ j e. ground (arith, z) }

Keeps-OwnPids : {t u : Table} → OwnPids t → OneRuns u → Keeps t u → OwnPids u
Keeps-OwnPids {t} {u} w o k = record {
  one = o;
  below = λ j e. let a = k.live j e in omega (arith, w.below j a.0, a.1, k.nextpid);
  apart = λ i j e g h.
      let a = k.live i e in let b = k.live j g in w.apart i j a.0 b.0 (sym a.1 ∙ h ∙ b.1);
}

-- A slot of the table after a birth is the new one, or as it was.
born-slot : {t u : Table} (c j : ℕ) → BornAt t c u → (j ≡ c) ⊎ ((j ≢ c) × (u.proc j ≡ t.proc j))
born-slot c j b = elim (ℕ_discrete j c) [ yes q ↦ inl q | no q ↦ inr (q, b.others j q) ]

born-OneRuns : {t u : Table} (c : ℕ) → OneRuns t → BornAt t c u → OneRuns u
born-OneRuns {t} {u} c w b = record {
  only = λ j e. elim (born-slot c j b) [
    | inl q ↦ absurd (b.quiet (subst (λ k. (u.proc k).state ≡ running) q e))
    | inr r ↦ b.current ∙ w.only j (ap (λ p. p.state) (sym r.1) ∙ e)
  ];
  runs = λ j e.
      let run = w.runs j (sym b.current ∙ e) in
      elim (born-slot c j b) [
        | inl q ↦ cc (b.free, run, ap (λ k. (t.proc k).state) q)
        | inr r ↦ ap (λ p. p.state) r.1 ∙ run
      ];
}

born-OwnPids : {t u : Table} (c : ℕ) → t.nextpid + 1 < 2 ^ 32 → OwnPids t → BornAt t c u → OwnPids u
born-OwnPids {t} {u} c small w b = record {
  one = born-OneRuns c w.one b;
  below = λ j e. elim (born-slot c j b) [
    | inl q ↦ omega (arith, small, ap (λ k. (u.proc k).pid) q, b.pid, b.nextpid)
    | inr r ↦ omega (arith, small, old j e r.1, ap (λ p. p.pid) r.1, b.nextpid)
  ];
  apart = λ i j e g h. elim (born-slot c i b) [
    | inl q ↦ elim (born-slot c j b) [ inl q' ↦ q ∙ sym q' | inr r ↦ absurd (fresh i j q e g r h) ]
    | inr r ↦ elim (born-slot c j b) [
      | inl q ↦ absurd (fresh j i q g e r (sym h))
      | inr r' ↦
          w.apart i j (used_before i e r.1) (used_before j g r'.1)
            (ap (λ p. p.pid) (sym r.1) ∙ h ∙ ap (λ p. p.pid) r'.1)
    ]
  ];
}
  where
    used_before :
        (j : ℕ) → (u.proc j).state ≢ unused → u.proc j ≡ t.proc j → (t.proc j).state ≢ unused
    used_before j e q z = e (ap (λ p. p.state) q ∙ z)

    old : (j : ℕ) → (u.proc j).state ≢ unused → u.proc j ≡ t.proc j → (t.proc j).pid < t.nextpid
    old j e q = w.below j (used_before j e q)

    fresh :
        (i j : ℕ)
        → i ≡ c
        → (u.proc i).state ≢ unused
        → (u.proc j).state ≢ unused
        → (j ≢ c) × (u.proc j ≡ t.proc j)
        → (u.proc i).pid ≢ (u.proc j).pid
    fresh i j q e g r h =
        omega (arith, old j g r.1, ap (λ p. p.pid) r.1, ap (λ k. (u.proc k).pid) q, b.pid, h)

pub Births-OwnPids : {t u : Table} → t.nextpid + 1 < 2 ^ 32 → OwnPids t → Births t u → OwnPids u
Births-OwnPids {t} {u} small w (born c b) = born-OwnPids c small w b
Births-OwnPids {t} {u} small w (unborn same pids here) =
    Keeps-OwnPids w
      (record {
        only = λ j e. here ∙ w.one.only j (ap (λ p. p.state) (sym (same j)) ∙ e);
        runs = λ j e. ap (λ p. p.state) (same j) ∙ w.one.runs j (sym here ∙ e);
      })
      (record {
        nextpid = pids;
        live = λ j e. (λ z. e (ap (λ p. p.state) (same j) ∙ z), ap (λ p. p.pid) (same j));
      })

Life-OwnPids : {t u : Table} → OwnPids t → Life t u → OwnPids u
Life-OwnPids w (moves s) = Keeps-OwnPids w (Step-OneRuns w.one s) (Step-Keeps w.one s)
Life-OwnPids {t} w (forks l i r c small e) = Births-OwnPids small w (fork-Births l i t r e)

-- From a table in which at most the current process is in state RUNNING, no two slots in use share a pid and each pid in use
-- is below the next one that `alloc_process` gives, every sequence of calls leaves such a table, `fork` included, as long as the counter of the pids does not wrap around.
pub Lives-OwnPids : {t u : Table} → OwnPids t → Lives t u → OwnPids u
Lives-OwnPids w rest = w
Lives-OwnPids w (next a b) = Life-OwnPids (Lives-OwnPids w a) b
