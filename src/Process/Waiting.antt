-- ===== src/Process/Waiting.antt =====
-- kernel/proc.c: `wait_process` and `exit_process` together.
use native.Mathlib.Decide.{ℕ_discrete}
use riscvos.Common.{
  ℕ, zero, suc, ◌+◌, ◌<◌, ◌≤◌, ◌≡◌, refl, ◌≢◌, ◌⊎◌, inl, inr, true, false, none, some, ◌&&◌, arith,
  Bool-cases,
}
use riscvos.Process.{
  Proc, Table, Wait, reaped, childless, waits, on_proc, nproc, unused, runnable, sleeping, is_child,
  is_zombie, find_zombie, has_kids, wake, wakeup, exit_process, reap, wait_pass, sleep,
  back_in_scheduler,
}

-- A child that has exited.
pub record IsDead (p : ℕ) (q : Proc) : Type 0 where
  pub child : is_child p q ≡ true
  pub exited : is_zombie q.state ≡ true

find_zombie-cases :
    (p : ℕ) (f : ℕ → Proc) (k i : ℕ)
    → ((find_zombie p f k i ≡ none)
        × ((j : ℕ) → i ≤ j → j < i + k → is_child p (f j) && is_zombie (f j).state ≡ false))
      ⊎ ((c : ℕ) × (find_zombie p f k i ≡ some c) × (c < i + k) × IsDead p (f c))
unfolding find_zombie
find_zombie-cases p f zero i = inl (refl, λ j lo hi. absurd (omega arith))
find_zombie-cases p f (suc k) i = elim (Bool-cases (is_child p (f i) && is_zombie (f i).state)) [
  | inl y ↦
      inr (i, ground arith, omega arith, record { child = ground arith; exited = ground arith })
  | inr n ↦ rw n (elim (find_zombie-cases p f k (i + 1)) [
    | inl (e, none') ↦ inl (
      e,
      λ j lo hi. elim (ℕ_discrete i j) [
        | yes q ↦ ground arith
        | no q ↦ none' j (omega arith) (omega arith)
      ],
    )
    | inr (c, e, lt, d) ↦ inr (c, e, omega arith, d)
  ])
]

has_kids-cases :
    (p : ℕ) (f : ℕ → Proc) (k i : ℕ)
    → ((has_kids p f k i ≡ false) × ((j : ℕ) → i ≤ j → j < i + k → is_child p (f j) ≡ false))
      ⊎ ((c : ℕ) × (has_kids p f k i ≡ true) × (c < i + k) × (is_child p (f c) ≡ true))
unfolding has_kids
has_kids-cases p f zero i = inl (refl, λ j lo hi. absurd (omega arith))
has_kids-cases p f (suc k) i = elim (Bool-cases (is_child p (f i))) [
  | inl y ↦ inr (i, ground arith, omega arith, y)
  | inr n ↦ rw n (elim (has_kids-cases p f k (i + 1)) [
    | inl (e, none') ↦ inl (
      e,
      λ j lo hi. elim (ℕ_discrete i j) [
        | yes q ↦ ground arith
        | no q ↦ none' j (omega arith) (omega arith)
      ],
    )
    | inr (c, e, lt, d) ↦ inr (c, e, omega arith, d)
  ])
]

-- What one pass of `wait_process` does.
pub data Waited (p : ℕ) (t : Table) : Wait → Type 0 where
  collects :
      {u : Table} (c : ℕ)
      → c < nproc
      → IsDead p (t.proc c)
      → (u.proc c).state ≡ unused
      → ((j : ℕ) → j ≢ c → u.proc j ≡ t.proc j)
      → Waited p t (reaped (t.proc c).pid (t.proc c).exit_code u)
  alone : ((j : ℕ) → j < nproc → is_child p (t.proc j) ≡ false) → Waited p t (childless t)
  blocks :
      {u : Table} (c : ℕ)
      → is_child p (t.proc c) ≡ true
      → ((j : ℕ) → j < nproc → is_child p (t.proc j) && is_zombie (t.proc j).state ≡ false)
      → (u.proc p).state ≡ sleeping
      → (u.proc p).chan ≡ on_proc p
      → u.current ≡ none
      → Waited p t (waits u)

reap_state : (c : ℕ) (t : Table) → ((reap c t).proc c).state ≡ unused
unfolding reap
reap_state c t = ground arith

reap_others : (c : ℕ) (t : Table) (j : ℕ) → j ≢ c → (reap c t).proc j ≡ t.proc j
unfolding reap
reap_others c t j ne = ground arith

-- One pass of `wait_process` gives back the pid and the exit code of a child that has exited, frees its slot and leaves the
-- other slots as they are; without such a child the process sleeps on its own entry, and without any child it gets -1.
pub wait_pass-Waited : (p : ℕ) (t : Table) → Waited p t (wait_pass p t)
unfolding wait_pass sleep back_in_scheduler
wait_pass-Waited p t = elim (find_zombie-cases p t.proc nproc 0) [
  | inr (c, e, lt, d) ↦ rw (e, wait_pass) (collects c lt d (reap_state c t) (reap_others c t))
  | inl (e, dead) ↦
      rw (e, wait_pass)
        (elim (has_kids-cases p t.proc nproc 0) [
          | inl (k, none') ↦ rw k (alone (λ j lt. none' j (omega arith) lt))
          | inr (c, k, lt, child) ↦ rw k (
              blocks c child (λ j lt'. dead j (omega arith) lt') (ground arith) (ground arith) refl)
        ])
]

-- The parent sleeps in `wait_process` and its running child exits: the parent is then runnable, and its next
-- pass returns the pid of a child that has exited, for whichever of them comes first.
pub exit_process-wait_pass :
    (status c p : ℕ) (t : Table)
    → c < nproc
    → p < nproc
    → c ≢ p
    → (t.proc c).parent ≡ some p
    → (t.proc p).state ≡ sleeping
    → (t.proc p).chan ≡ on_proc p
    → (((exit_process status c t).proc p).state ≡ runnable)
      × ((i : ℕ) × IsDead p ((exit_process status c t).proc i)
          × (wait_pass p (exit_process status c t)
              ≡ reaped
                  ((exit_process status c t).proc i).pid
                  ((exit_process status c t).proc i).exit_code
                  (reap i (exit_process status c t))))
unfolding exit_process wakeup wake wait_pass back_in_scheduler
exit_process-wait_pass status c p t hc hp ne parent asleep chan =
    let u : Table = exit_process status c t in
    let dead : is_child p (u.proc c) && is_zombie (u.proc c).state ≡ true = ground arith in
    (
      ground arith,
      elim (find_zombie-cases p u.proc nproc 0) [
        | inl (e, no_dead) ↦ absurd (ground (arith, no_dead c (omega arith) hc))
        | inr (i, e, lt, d) ↦ (i, d, rw (e, wait_pass) refl)
      ],
    )
