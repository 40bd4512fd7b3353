-- ===== src/Process/Tests.antt =====
-- The process table at concrete states.
use riscvos.Common.{
  ℕ, [], ◌∷◌, ◌+◌, ◌≡◌, refl, false, none, some, arith, if◌then◌else◌, ◌==◌, Option,
}
use riscvos.Process.{
  Proc, ProcState, Table, Chan, nothing, on_proc, reaped, unused, runnable, running, sleeping,
  dispatch, yield, exit_process, wait_pass, reap,
}
use riscvos.Common.Outcome.{Outcome, Ensures, done}
use riscvos.Process.Create.{Link, fork}
use riscvos.Process.Create.Forking.{Forked, fork-Forked}
use riscvos.Process.Schedule.{dispatches, yields, OneRuns}
use riscvos.Process.Create.Fair.{Pass, skips, gives, ended, begins, acts, Pass-dispatched}
use mathlib.Core.List.{Memᴰ}
use riscvos.Process.Create.Pids.{OwnPids, rest, next, moves, forks, Lives-OwnPids}
use riscvos.Process.Waiting.{Waited, IsDead, wait_pass-Waited, exit_process-wait_pass}

abbrev entry : ProcState → ℕ → Option ℕ → Chan → Proc
entry st pid parent chan = record {
  state = st;
  pid = pid;
  kstack = 4096;
  name = λ i. 0;
  parent = parent;
  chan = chan;
  exit_code = 0;
  killed = false;
  ra = 0;
  sp = 0;
  sz = 0;
  pagetable = 0;
  trapframe = 0;
  ofile = λ fd. none;
}

-- Process 0 sleeps in `wait_process`, its child in slot 1 runs.
abbrev family : Table
family = record {
  proc = λ i.
      if i == 0
      then entry sleeping 1 none (on_proc 0)
      else (if i == 1 then entry running 2 (some 0) nothing else entry unused 0 none nothing);
  current = some 1;
  nextpid = 3;
  ram = record { pmm = record { freelist = 0; next = λ p. 0 }; word = λ a. 0 };
}

exit_process-wait_pass_example :
    (((exit_process 3 1 family).proc 0).state ≡ runnable)
    × ((i : ℕ) × IsDead 0 ((exit_process 3 1 family).proc i)
        × (wait_pass 0 (exit_process 3 1 family)
            ≡ reaped
                ((exit_process 3 1 family).proc i).pid
                ((exit_process 3 1 family).proc i).exit_code
                (reap i (exit_process 3 1 family))))
exit_process-wait_pass_example =
    exit_process-wait_pass 3 1 0 family (omega arith) (omega arith) (omega arith) refl refl refl

wait_pass-Waited_example : Waited 0 family (wait_pass 0 family)
wait_pass-Waited_example = wait_pass-Waited 0 family

abbrev ready : Table
ready = record family {
  proc = λ i. if i == 1 then entry runnable 2 (some 0) nothing else entry unused 0 none nothing;
  current = none;
}

ready-OneRuns : OneRuns ready
ready-OneRuns = record { only = λ i e. ground arith; runs = λ i e. ground arith }

abbrev link : Link
link = record { trampoline = 2147483648; usertrapret = 0; program = λ j. 0; program_size = 0 }

fork-Forked_example : Ensures (Forked 1 family) (fork link 1 family)
fork-Forked_example = fork-Forked link 1 family refl (omega arith)

-- Process 1 is dispatched, with pages from 4096 on, and forks.
abbrev plenty : Table
plenty = record ready {
  ram = record ready.ram { pmm = record { freelist = 4096; next = λ p. p + 4096 } };
}

plenty-OwnPids : OwnPids plenty
plenty-OwnPids = record {
  one = record { only = λ i e. ground arith; runs = λ i e. ground arith };
  below = λ j e. ground arith;
  apart = λ i j e g h. ground arith;
}

abbrev started : Table
started = dispatch 1 plenty

abbrev result_or {ℓ} : {A : Type ℓ} → A → Outcome A → A
result_or d (done a) = a
result_or d _ = d

abbrev child : Option ℕ × Table
child = result_or (none, started) (fork link 1 started)

child-done : fork link 1 started ≡ done child
unfolding fork riscvos.Process.Create.alloc_process dispatch riscvos.Memory.Pmm.alloc_page
    riscvos.Memory.Vm.create_pagetable riscvos.Memory.Vm.map_page
child-done = refl

child_pid : child.0 ≡ some 3
unfolding fork riscvos.Process.Create.alloc_process dispatch riscvos.Memory.Pmm.alloc_page
    riscvos.Memory.Vm.create_pagetable riscvos.Memory.Vm.map_page
child_pid = refl

Lives-OwnPids_example : OwnPids child.1
unfolding dispatch
Lives-OwnPids_example = Lives-OwnPids plenty-OwnPids (
    next (next rest (moves (dispatches 1 (omega arith) refl refl)))
      (forks {t = started} link 1 child refl (omega arith) child-done))

-- Process 63 is ready to run, and yields in its turn.
abbrev last_ready : Table
last_ready = record ready {
  proc = λ i. if i == 63 then entry runnable 2 (some 0) nothing else entry unused 0 none nothing;
}

abbrev yielded : Table
yielded = yield 63 (dispatch 63 last_ready)

last_pass : Pass 62 last_ready (63 ∷ []) yielded
unfolding yield dispatch
last_pass =
    skips (omega arith) (λ e. ground (arith, e))
      (gives {v = yielded} (omega arith) refl
        (acts {u = dispatch 63 last_ready} begins refl (moves (yields 63 refl))) refl ended)

Pass-dispatched_example : Memᴰ {A = ℕ} 63 (63 ∷ [])
Pass-dispatched_example = Pass-dispatched 62 63 last_pass (omega arith) (omega arith) refl
