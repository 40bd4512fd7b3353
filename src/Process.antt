-- ===== src/Process.antt =====
-- Processes: the table of kernel/proc.c and the switches between a process and the scheduler.
--
-- A `struct proc *` is an index of `proc`. `swtch` ends the part of a function that runs before it: what a
-- function does after its process runs again is a function of its own. Of `context`, `ra` and `sp` are here:
-- the other registers are saved and loaded by `swtch` alone.
mod Tests
pub mod Schedule
pub mod Create
pub mod Waiting
use riscvos.Common.{
  ℕ, zero, suc, ◌+◌, Bool, true, false, Option, none, some, ◌&&◌, ◌==◌, ltb, if◌then◌else◌, update,
}
use riscvos.Memory.Pmm.{free_page}
use riscvos.Memory.Vm.{Ram}

pub data ProcState : Type 0 where
  unused : ProcState
  used : ProcState
  runnable : ProcState
  running : ProcState
  sleeping : ProcState
  zombie : ProcState

-- What a process sleeps on: nothing, a process (in `wait_process`), or another object of the kernel.
pub data Chan : Type 0 where
  nothing : Chan
  on_proc : ℕ → Chan
  on_object : ℕ → Chan

pub record Proc : Type 0 where
  pub state : ProcState
  pub pid : ℕ
  pub kstack : ℕ
  pub name : ℕ → ℕ
  pub parent : Option ℕ
  pub chan : Chan
  pub exit_code : ℕ
  pub killed : Bool
  pub ra : ℕ
  pub sp : ℕ
  pub sz : ℕ
  pub pagetable : ℕ
  pub trapframe : ℕ
  pub ofile : ℕ → Option ℕ

pub record Table : Type 0 where
  pub proc : ℕ → Proc
  pub current : Option ℕ
  pub nextpid : ℕ
  pub ram : Ram

abbrev pub nproc : ℕ
nproc = 64

abbrev pub is_unused : ProcState → Bool
is_unused unused = true
is_unused _ = false

abbrev pub is_sleeping : ProcState → Bool
is_sleeping sleeping = true
is_sleeping _ = false

abbrev pub is_zombie : ProcState → Bool
is_zombie zombie = true
is_zombie _ = false

abbrev pub same_chan : Chan → Chan → Bool
same_chan nothing nothing = true
same_chan (on_proc p) (on_proc q) = p == q
same_chan (on_object a) (on_object b) = a == b
same_chan _ _ = false

abbrev pub is_child : ℕ → Proc → Bool
is_child p q = elim q.parent [ some r ↦ r == p | none ↦ false ]

abbrev pub set_proc : ℕ → Proc → Table → Table
set_proc i q t = record t { proc = update t.proc i q }

-- The loop of `safestrcpy` with `k` characters left before the last.
unfoldable pub safestrcpy : (ℕ → ℕ) → (ℕ → ℕ) → ℕ → ℕ → ℕ → ℕ
safestrcpy s t zero i = update s i 0
safestrcpy s t (suc k) i =
    let rest = safestrcpy (update s i (t i)) t k (i + 1) in if t i == 0 then update s i 0 else rest

unfoldable pub proc_init : Table → Table
proc_init t = record t {
  proc = λ i. if ltb i nproc then record (t.proc i) { state = unused } else t.proc i;
}

-- One round of `scheduler` up to its `swtch`, and its return from there.
unfoldable pub dispatch : ℕ → Table → Table
dispatch i t = record (set_proc i (record (t.proc i) { state = running }) t) { current = some i }

unfoldable pub back_in_scheduler : Table → Table
back_in_scheduler t = record t { current = none }

-- `yield` and `sleep` of process `i`, the current one, up to `swtch`, with the return to the scheduler.
unfoldable pub yield : ℕ → Table → Table
unfolding back_in_scheduler
yield i t = back_in_scheduler (set_proc i (record (t.proc i) { state = runnable }) t)

unfoldable pub sleep : Chan → ℕ → Table → Table
unfolding back_in_scheduler
sleep c i t = back_in_scheduler (set_proc i (record (t.proc i) { chan = c; state = sleeping }) t)

-- The end of `sleep`, when the process runs again.
unfoldable pub awake : ℕ → Table → Table
awake i t = set_proc i (record (t.proc i) { chan = nothing }) t

unfoldable pub wake : Chan → Proc → Proc
wake c p =
    if is_sleeping p.state && same_chan p.chan c
    then record p { state = runnable; chan = nothing }
    else p

unfoldable pub wakeup : Chan → Table → Table
unfolding wake
wakeup c t = record t { proc = λ i. if ltb i nproc then wake c (t.proc i) else t.proc i }

-- `exit_process`: the last `swtch` does not return.
unfoldable pub exit_process : ℕ → ℕ → Table → Table
unfolding wakeup back_in_scheduler
exit_process status i t =
    let t' = set_proc i (record (t.proc i) { exit_code = status; state = zombie }) t in
    back_in_scheduler (elim (t.proc i).parent [ some p ↦ wakeup (on_proc p) t' | none ↦ t' ])

-- The loop of `kill`, from slot `i`.
unfoldable pub find_pid : ℕ → (ℕ → Proc) → ℕ → ℕ → Option ℕ
find_pid pid f zero i = none
find_pid pid f (suc k) i =
    let rest = find_pid pid f k (i + 1) in if (f i).pid == pid then some i else rest

-- Whether the process was found, and the table.
unfoldable pub kill : ℕ → Table → Bool × Table
unfolding find_pid
kill pid t = elim (find_pid pid t.proc nproc 0) [
  | none ↦ (false, t)
  | some i ↦
      let p = t.proc i in
      (
        true,
        set_proc i
            (record p { killed = true; state = if is_sleeping p.state then runnable else p.state })
            t,
      )
]

-- The loop over the slots in `wait_process`: the first child that is a zombie.
unfoldable pub find_zombie : ℕ → (ℕ → Proc) → ℕ → ℕ → Option ℕ
find_zombie p f zero i = none
find_zombie p f (suc k) i =
    let rest = find_zombie p f k (i + 1) in
    if is_child p (f i) && is_zombie (f i).state then some i else rest

unfoldable pub has_kids : ℕ → (ℕ → Proc) → ℕ → ℕ → Bool
has_kids p f zero i = false
has_kids p f (suc k) i =
    let rest = has_kids p f k (i + 1) in if is_child p (f i) then true else rest

-- Giving the slot of a zombie back. The name ends at its first character.
unfoldable pub reap : ℕ → Table → Table
reap i t =
    let q = record (t.proc i) {
      kstack = 0;
      state = unused;
      pid = 0;
      parent = none;
      name = update (t.proc i).name 0 0;
    } in
    record (set_proc i q t) { ram = record t.ram { pmm = free_page (t.proc i).kstack t.ram.pmm } }

-- One pass of the loop of `wait_process`: a child's pid and exit code, -1, or to sleep.
pub data Wait : Type 0 where
  reaped : ℕ → ℕ → Table → Wait
  childless : Table → Wait
  waits : Table → Wait

unfoldable pub wait_pass : ℕ → Table → Wait
unfolding find_zombie has_kids reap sleep
wait_pass p t = elim (find_zombie p t.proc nproc 0) [
  | some i ↦ reaped (t.proc i).pid (t.proc i).exit_code (reap i t)
  | none ↦ if has_kids p t.proc nproc 0 then waits (sleep (on_proc p) p t) else childless t
]
