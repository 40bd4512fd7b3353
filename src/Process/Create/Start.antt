-- ===== src/Process/Create/Start.antt =====
-- kernel/proc.c: `user_init`, which makes the first process from the embedded program.
use riscvos.Common.{
  ℕ, zero, suc, ◌+◌, ◌-◌, ◌*◌, ◌/◌, ◌%◌, ◌^◌, Bool, true, false, none, some, [], ◌∷◌, get_or, ◌&&◌,
  ltb, leb, if◌then◌else◌,
}
use riscvos.Common.Outcome.{Outcome, done, ◌>>=◌}
use riscvos.Memory.Pmm.{pgsize}
use riscvos.Memory.Vm.{Ram, store, clear_page, map_page}
use riscvos.Process.{Table, runnable, set_proc, safestrcpy}
use riscvos.Process.Create.{Link, alloc_process, new_page, or_fault, set_ram, tf_addr}

-- A byte of the program, and 0 behind its end.
abbrev pub program_byte : Link → ℕ → ℕ
program_byte l j = if ltb j l.program_size then l.program j % 256 else 0

-- Eight bytes from offset `o` on, as a word.
abbrev pub program_word : Link → ℕ → ℕ
program_word l o =
    program_byte l o
    + 2 ^ 8 * program_byte l (o + 1)
    + 2 ^ 16 * program_byte l (o + 2)
    + 2 ^ 24 * program_byte l (o + 3)
    + 2 ^ 32 * program_byte l (o + 4)
    + 2 ^ 40 * program_byte l (o + 5)
    + 2 ^ 48 * program_byte l (o + 6)
    + 2 ^ 56 * program_byte l (o + 7)

-- The loops that clear a page and copy a part of the program into it.
abbrev pub program_page : Link → ℕ → ℕ → Ram → Ram
program_page l o mem m = record m {
  word = λ w.
      if leb (mem / 8) w && ltb w (mem / 8 + 512)
      then program_word l (o + 8 * (w - mem / 8))
      else m.word w;
}

-- The loop over the pages of the program, from page `i`.
unfoldable pub load_pages : Link → ℕ → ℕ → ℕ → Ram → Outcome (Bool × Ram)
load_pages l zero pt i m = done (true, m)
load_pages l (suc k) pt i m =
    let n = new_page m in
    elim n.0 [
      | none ↦ done (false, n.1)
      | some mem ↦
          or_fault (map_page pt (i * pgsize) mem 30 (program_page l (i * pgsize) mem n.1)) >>= λ m'.
          load_pages l k pt (i + 1) m'
    ]

abbrev pub init_name : ℕ → ℕ
init_name j = get_or (105 ∷ 110 ∷ 105 ∷ 116 ∷ []) j 0

-- The part of `user_init` behind the pages of the program.
unfoldable pub start_init : Link → ℕ → ℕ → Table → Outcome Table
start_init l c stack_va t =
    let n = new_page t.ram in
    let p = record (t.proc c) { sz = stack_va } in
    elim n.0 [
      | none ↦ done (set_ram n.1 (set_proc c p t))
      | some stack ↦ (do
        m ← or_fault (map_page p.pagetable stack_va stack 22 (clear_page stack n.1))
        let m' = store (tf_addr p 6) (stack_va + pgsize) (store (tf_addr p 3) 0 m)
        done (
            set_ram m' (
              set_proc c
                (record p {
                  sz = stack_va + pgsize;
                  state = runnable;
                  ra = l.usertrapret;
                  sp = p.kstack + pgsize;
                })
                t)))
    ]

unfoldable pub user_init : Link → Table → Outcome Table
unfolding load_pages start_init
user_init l t = alloc_process l t >>= λ r. elim r.0 [
  | none ↦ done r.1
  | some c ↦ (do
    let p = record (r.1.proc c) {
      parent = none;
      name = safestrcpy (r.1.proc c).name init_name 15 0;
    }
    let pages = (l.program_size + 4095) / pgsize
    b ← load_pages l pages p.pagetable 0 r.1.ram
    let u = set_ram b.1 (set_proc c p r.1)
    if b.0 then start_init l c (pages * pgsize) u else done u)
]
