-- ===== src/Process/Create/Fair.antt =====
-- kernel/proc.c: one pass of the loop of `scheduler` over the slots, and what the processes do in their turns.
use native.Mathlib.Decide.{ℕ_discrete}
use mathlib.Core.List.{Memᴰ}
use mathlib.Core.List.Memᴰ.{head, tail}
use riscvos.Common.{
  ℕ, ◌+◌, ◌<◌, ◌≤◌, ◌≡◌, ◌≢◌, ap, ◌∙◌, none, some, List, [], ◌∷◌, arith, Option-cases,
}
use riscvos.Process.{
  Table, nproc, runnable, dispatch, yield, sleep, awake, wake, wakeup, exit_process, kill, find_pid,
  reap, back_in_scheduler,
}
use riscvos.Process.Create.Allocating.{Births, born, unborn}
use riscvos.Process.Create.Births.{fork-Births}
use riscvos.Process.Create.Pids.{Life, moves, forks}
use riscvos.Process.Schedule.{Step, dispatches, yields, sleeps, awakes, wakes, exits, kills, reaps}

-- The turn of process `i`, from its dispatch on: calls while it is the current process.
pub data Turn (i : ℕ) (t : Table) : Table → Type 0 where
  begins : Turn i t (dispatch i t)
  acts : {u v : Table} → Turn i t u → u.current ≡ some i → Life u v → Turn i t v

-- The loop from slot `i` on, with the slots that it dispatches. A turn ends with the return to the scheduler.
pub data Pass : ℕ → Table → List ℕ → Table → Type 0 where
  ended : {t : Table} → Pass nproc t [] t
  skips :
      {i : ℕ} {t u : Table} {ds : List ℕ}
      → i < nproc
      → (t.proc i).state ≢ runnable
      → Pass (i + 1) t ds u
      → Pass i t ds u
  gives :
      {i : ℕ} {t u v : Table} {ds : List ℕ}
      → i < nproc
      → (t.proc i).state ≡ runnable
      → Turn i t v
      → v.current ≡ none
      → Pass (i + 1) v ds u
      → Pass i t (i ∷ ds) u

-- A call of the current process leaves the others runnable.
Step-runnable :
    {t u : Table} (i j : ℕ)
    → Step t u
    → t.current ≡ some i
    → j ≢ i
    → (t.proc j).state ≡ runnable
    → (u.proc j).state ≡ runnable
unfolding yield sleep awake wakeup exit_process kill reap back_in_scheduler wake
Step-runnable {t} i j (dispatches k h idle r) c ne e = cc (idle, c)
Step-runnable {t} i j (yields k c') c ne e = ground (arith, c, c', e)
Step-runnable {t} i j (sleeps ch k c') c ne e = ground (arith, c, c', e)
Step-runnable {t} i j (awakes k c') c ne e = ground (arith, c, c', e)
Step-runnable {t} i j (wakes ch k c') c ne e = ground (arith, c, c', e)
Step-runnable {t} i j (exits st k c') c ne e =
    ground (arith, c, c', e, Option-cases (t.proc k).parent)
Step-runnable {t} i j (kills pid k c') c ne e =
    ground (arith, e, Option-cases (find_pid pid t.proc nproc 0))
Step-runnable {t} i j (reaps ch k c' z) c ne e = ground (arith, z, e)

Births-runnable :
    {t u : Table} (j : ℕ) → Births t u → (t.proc j).state ≡ runnable → (u.proc j).state ≡ runnable
Births-runnable j (unborn same n c) e = ap (λ p. p.state) (same j) ∙ e
Births-runnable {t} j (born c b) e =
    ap (λ p. p.state) (b.others j (λ q. cc (b.free, e, ap (λ k. (t.proc k).state) q))) ∙ e

Life-runnable :
    {t u : Table} (i j : ℕ)
    → Life t u
    → t.current ≡ some i
    → j ≢ i
    → (t.proc j).state ≡ runnable
    → (u.proc j).state ≡ runnable
Life-runnable i j (moves s) c ne e = Step-runnable i j s c ne e
Life-runnable {t} i j (forks l k r c' small q) c ne e = Births-runnable j (fork-Births l k t r q) e

Turn-runnable :
    (i j : ℕ) {t u : Table}
    → Turn i t u
    → j ≢ i
    → (t.proc j).state ≡ runnable
    → (u.proc j).state ≡ runnable
unfolding dispatch
Turn-runnable i j begins ne e = ground (arith, e)
Turn-runnable i j (acts a c s) ne e = Life-runnable i j s c ne (Turn-runnable i j a ne e)

-- One pass of the scheduler dispatches every process from slot `i` on that is runnable when the pass gets to slot `i`,
-- whatever the processes do in their turns.
pub Pass-dispatched :
    {t u : Table} {ds : List ℕ} (i j : ℕ)
    → Pass i t ds u
    → i ≤ j
    → j < nproc
    → (t.proc j).state ≡ runnable
    → Memᴰ j ds
Pass-dispatched i j ended le lt e = absurd (omega arith)
Pass-dispatched {t} i j (skips h idle p) le lt e =
    Pass-dispatched (i + 1) j p
      (omega (arith, (λ (q : i ≡ j). idle (ap (λ k. (t.proc k).state) q ∙ e)))) lt e
Pass-dispatched i j (gives {ds = ds} h r a c p) le lt e = elim (ℕ_discrete j i) [
  | yes q ↦ head q
  | no ne ↦ tail (Pass-dispatched (i + 1) j p (omega arith) lt (Turn-runnable i j a ne e))
]
