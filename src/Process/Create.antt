-- ===== src/Process/Create.antt =====
-- kernel/proc.c: `alloc_process`, `fork`, `sbrk` and `user_init`.
--
-- A store through the null pointer that a failed `alloc_page` returns is a fault of the kernel, which
-- ends in `panic` of `kerneltrap`. What the linker decides is a parameter: the addresses of the trampoline
-- and of `usertrapret`, and the embedded program.
pub mod Start
pub mod Allocating
pub mod Forking
pub mod Births
pub mod Pids
pub mod Fair
pub mod First
use riscvos.Common.{
  ℕ, zero, suc, ◌+◌, ◌-◌, ◌*◌, ◌/◌, ◌%◌, ◌^◌, Bool, true, false, Option, none, some, ◌&&◌, ◌==◌,
  ltb, leb, if◌then◌else◌, update,
}
use riscvos.Common.Outcome.{Outcome, done, panic, hang, ◌>>=◌}
use riscvos.Memory.Pmm.{pgsize, alloc_page, pg_round_up}
use riscvos.Memory.Vm.{
  Ram, load, store, clear_page, pte_pa, is_mapped, walk_lookup, create_pagetable, map_page,
}
use riscvos.Process.{
  Proc, Table, nothing, is_unused, unused, used, runnable, nproc, set_proc, safestrcpy,
}

-- What the linker places, and the program that it embeds.
pub record Link : Type 0 where
  pub trampoline : ℕ
  pub usertrapret : ℕ
  pub program : ℕ → ℕ
  pub program_size : ℕ

abbrev pub trampoline_va : ℕ
trampoline_va = 2 ^ 38 - pgsize

abbrev pub trapframe_va : ℕ
trapframe_va = trampoline_va - pgsize

abbrev pub or_fault {ℓ} : {A : Type ℓ} → Option A → Outcome A
or_fault none = panic "kerneltrap"
or_fault (some a) = done a

-- `alloc_page` of the memory: the page, or null.
abbrev pub new_page : Ram → Option ℕ × Ram
new_page m = let r = alloc_page m.pmm in (r.0, record m { pmm = r.1 })

-- The first slot in state UNUSED.
unfoldable pub find_unused : (ℕ → Proc) → ℕ → ℕ → Option ℕ
find_unused f zero i = none
find_unused f (suc k) i =
    let rest = find_unused f k (i + 1) in if is_unused (f i).state then some i else rest

abbrev pub set_ram : Ram → Table → Table
set_ram m t = record t { ram = m }

-- What `alloc_process` does with its slot: `false` where it returns null, with the slot left in state USED.
unfoldable pub fill_slot : Link → ℕ → Table → Outcome (Bool × Table)
fill_slot l i t =
    let p = record (t.proc i) { pid = t.nextpid; state = used } in
    let t₁ = record (set_proc i p t) { nextpid = (t.nextpid + 1) % 2 ^ 32 } in
    let k = new_page t₁.ram in
    elim k.0 [
      | none ↦ done (false, set_ram k.1 (set_proc i (record p { kstack = 0 }) t₁))
      | some kstack ↦ (do
        pt ← or_fault (create_pagetable k.1)
        let tf = new_page pt.1
        let q = record p { kstack = kstack; pagetable = pt.0 }
        elim tf.0 [
          | none ↦ done (false, set_ram tf.1 (set_proc i (record q { trapframe = 0 }) t₁))
          | some frame ↦ (do
            m₁ ← or_fault (map_page pt.0 trampoline_va l.trampoline 10 tf.1)
            m₂ ← or_fault (map_page pt.0 trapframe_va frame 6 m₁)
            let r = record q {
              trapframe = frame;
              sz = 0;
              sp = kstack + pgsize;
              parent = none;
              chan = nothing;
            }
            done (true, set_ram m₂ (set_proc i r t₁)))
        ])
    ]

unfoldable pub alloc_process : Link → Table → Outcome (Option ℕ × Table)
unfolding find_unused fill_slot
alloc_process l t = elim (find_unused t.proc nproc 0) [
  | none ↦ done (none, t)
  | some i ↦ fill_slot l i t >>= λ r. done (if r.0 then some i else none, r.1)
]

-- The loops that copy the `PGSIZE` bytes of a page: pages are aligned, so this is word by word.
abbrev pub copy_page : ℕ → ℕ → Ram → Ram
copy_page dst src m = record m {
  word = λ w.
      if leb (dst / 8) w && ltb w (dst / 8 + 512)
      then m.word (src / 8 + (w - dst / 8))
      else m.word w;
}

-- The page of `va`, if its entry is valid.
unfoldable pub mapped_page : ℕ → ℕ → Ram → Option ℕ
mapped_page pt va m = elim (walk_lookup pt va m) [
  | none ↦ none
  | some a ↦ if is_mapped (load m a) then some (pte_pa (load m a)) else none
]

-- The loop of `fork` over the parent's pages: `false` where it finds no page for the child. For a size in the last page
-- of the address space `va` wraps around, and the loop goes on for ever or until memory runs out.
unfoldable pub fork_pages : ℕ → ℕ → ℕ → ℕ → ℕ → Ram → Outcome (Bool × Ram)
unfolding mapped_page
fork_pages zero pt child sz va m = hang "fork"
fork_pages (suc k) pt child sz va m = elim (ltb va sz) [
  | false ↦ done (true, m)
  | true ↦ elim (mapped_page pt va m) [
    | none ↦ fork_pages k pt child sz ((va + pgsize) % 2 ^ 64) m
    | some pa ↦
        let n = new_page m in
        elim n.0 [
          | none ↦ done (false, n.1)
          | some mem ↦ or_fault (map_page child va mem 30 (copy_page mem pa n.1)) >>= λ m'.
              fork_pages k pt child sz ((va + pgsize) % 2 ^ 64) m'
        ]
  ]
]

-- The word of the trapframe that holds `a0`.
abbrev pub tf_a0 : ℕ
tf_a0 = 14

abbrev pub tf_addr : Proc → ℕ → ℕ
tf_addr p k = p.trapframe + 8 * k

-- The end of `fork`, once the pages are there.
unfoldable pub start_child : Link → ℕ → ℕ → Table → Table
start_child l i c t =
    let p = t.proc i in
    let q = t.proc c in
    let m = store (tf_addr q tf_a0) 0 (copy_page q.trapframe p.trapframe t.ram) in
    set_ram m (
      set_proc c
        (record q {
          sz = p.sz;
          parent = some i;
          name = safestrcpy q.name p.name 15 0;
          ra = l.usertrapret;
          sp = q.kstack + pgsize;
          state = runnable;
        })
        t)

-- The part of `fork` behind `alloc_process`, for the child in slot `c`. The fuel is more than the rounds over the address space that
-- take a page each, of fewer than 2^20 pages.
unfoldable pub fork_into : Link → ℕ → ℕ → Table → Outcome (Option ℕ × Table)
unfolding fork_pages start_child
fork_into l i c t = do
  b ←
      fork_pages ((t.proc i).sz / pgsize + 2 ^ 72) (t.proc i).pagetable (t.proc c).pagetable
        (t.proc i).sz 0 t.ram
  let u = set_ram b.1 t
  done (
      if b.0
      then (some (u.proc c).pid, start_child l i c u)
      else (none, set_proc c (record (u.proc c) { state = unused }) u))

-- `fork` by process `i`: the child's pid, or `none` for -1.
unfoldable pub fork : Link → ℕ → Table → Outcome (Option ℕ × Table)
unfolding fork_into
fork l i t =
    alloc_process l t >>= λ r. elim r.0 [ none ↦ done (none, r.1) | some c ↦ fork_into l i c r.1 ]

-- The loop of `sbrk` that maps cleared pages from `a` on: `false` where it finds none. A round takes a
-- page, of fewer than 2^20, which bounds them also where `a` wraps around.
unfoldable pub grow_pages : ℕ → ℕ → ℕ → ℕ → Ram → Outcome (Bool × Ram)
grow_pages zero pt top a m = hang "sbrk"
grow_pages (suc k) pt top a m = elim (ltb a top) [
  | false ↦ done (true, m)
  | true ↦
      let n = new_page m in
      elim n.0 [
        | none ↦ done (false, n.1)
        | some mem ↦ or_fault (map_page pt a mem 30 (clear_page mem n.1)) >>= λ m'.
            grow_pages k pt top ((a + pgsize) % 2 ^ 64) m'
      ]
]

-- An `int` as a `uint64_t`.
abbrev pub sign_extend : ℕ → ℕ
sign_extend n = if ltb n (2 ^ 31) then n else n + (2 ^ 64 - 2 ^ 32)

-- `sbrk` by process `i`: the old size, or `none` for -1. A shrink keeps its pages, and `newsz < 0` is never true.
unfoldable pub sbrk : ℕ → ℕ → Table → Outcome (Option ℕ × Table)
unfolding grow_pages
sbrk n i t =
    let p = t.proc i in
    let newsz = (p.sz + sign_extend n) % 2 ^ 64 in
    let grown = set_proc i (record p { sz = newsz }) in
    if ltb 0 n && ltb n (2 ^ 31)
    then (grow_pages (n / pgsize + 2 ^ 20) p.pagetable newsz (pg_round_up p.sz % 2 ^ 64) t.ram
        >>= λ b. done (if b.0 then (some p.sz, grown (set_ram b.1 t)) else (none, set_ram b.1 t)))
    else done (some p.sz, grown t)
