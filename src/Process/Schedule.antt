-- ===== src/Process/Schedule.antt =====
-- kernel/proc.c: which process runs.
use riscvos.Common.{ℕ, ◌<◌, ◌≡◌, none, some, arith, Option-cases}
use riscvos.Process.{
  Table, Chan, nproc, runnable, running, zombie, dispatch, yield, sleep, awake, wake, wakeup,
  exit_process, kill, find_pid, reap, back_in_scheduler,
}

-- The calls that change the table, each made by the scheduler or by the process that runs.
pub data Step : Table → Table → Type 0 where
  dispatches :
      {t : Table} (i : ℕ)
      → i < nproc
      → t.current ≡ none
      → (t.proc i).state ≡ runnable
      → Step t (dispatch i t)
  yields : {t : Table} (i : ℕ) → t.current ≡ some i → Step t (yield i t)
  sleeps : {t : Table} (c : Chan) (i : ℕ) → t.current ≡ some i → Step t (sleep c i t)
  awakes : {t : Table} (i : ℕ) → t.current ≡ some i → Step t (awake i t)
  wakes : {t : Table} (c : Chan) (i : ℕ) → t.current ≡ some i → Step t (wakeup c t)
  exits : {t : Table} (status i : ℕ) → t.current ≡ some i → Step t (exit_process status i t)
  kills : {t : Table} (pid i : ℕ) → t.current ≡ some i → Step t (kill pid t).1
  reaps : {t : Table} (c i : ℕ) → t.current ≡ some i → (t.proc c).state ≡ zombie → Step t (reap c t)

data Steps : Table → Table → Type 0 where
  stop : {t : Table} → Steps t t
  step : {t u v : Table} → Steps t u → Step u v → Steps t v

-- The process that runs is the current one, and is in state RUNNING.
pub record OneRuns (t : Table) : Type 0 where
  pub only : (i : ℕ) → (t.proc i).state ≡ running → t.current ≡ some i
  pub runs : (i : ℕ) → t.current ≡ some i → (t.proc i).state ≡ running

pub Step-OneRuns : {t u : Table} → OneRuns t → Step t u → OneRuns u
unfolding dispatch yield sleep awake wakeup exit_process kill reap back_in_scheduler wake
Step-OneRuns {t} w (dispatches i h c r) = record {
  only = λ j e. ground (arith, w.only j);
  runs = λ j e. ground (arith, w.runs j);
}
Step-OneRuns {t} w (yields i c) = record {
  only = λ j e. ground (arith, w.only j, w.runs i);
  runs = λ j e. ground (arith, w.runs j);
}
Step-OneRuns {t} w (sleeps ch i c) = record {
  only = λ j e. ground (arith, w.only j);
  runs = λ j e. ground (arith, w.runs j);
}
Step-OneRuns {t} w (awakes i c) = record {
  only = λ j e. ground (arith, w.only j);
  runs = λ j e. ground (arith, w.runs j);
}
Step-OneRuns {t} w (wakes ch i c) = record {
  only = λ j e. ground (arith, w.only j);
  runs = λ j e. ground (arith, w.runs j);
}
Step-OneRuns {t} w (exits st i c) = record {
  only = λ j e. ground (arith, w.only j, Option-cases (t.proc i).parent);
  runs = λ j e. ground (arith, w.runs j);
}
Step-OneRuns {t} w (kills pid i c) = record {
  only = λ j e. ground (arith, w.only j, Option-cases (find_pid pid t.proc nproc 0));
  runs = λ j e. ground (arith, w.runs j, Option-cases (find_pid pid t.proc nproc 0));
}
Step-OneRuns {t} w (reaps ch i c z) = record {
  only = λ j e. ground (arith, w.only j);
  runs = λ j e. ground (arith, w.runs j);
}

-- From a table in which the process in state RUNNING is the current one, if there is any, every
-- sequence of calls leaves such a table: two processes never run at once.
Steps-OneRuns : {t u : Table} → OneRuns t → Steps t u → OneRuns u
Steps-OneRuns w stop = w
Steps-OneRuns w (step a b) = Step-OneRuns (Steps-OneRuns w a) b
