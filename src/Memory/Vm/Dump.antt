-- ===== src/Memory/Vm/Dump.antt =====
-- kernel/vm.c: the debugging output of a page table, as the list of the characters that it prints.
use Prim.Native.Nat.{bit_or}
use riscvos.Common.{
  ℕ, zero, suc, ◌+◌, ◌-◌, ◌*◌, ◌/◌, ◌%◌, ◌^◌, Bool, some, List, [], ◌∷◌, ◌++◌, ltb, ◌&&◌, ◌==◌,
  if◌then◌else◌,
}
use riscvos.Console.Printf.{number, text, codes, printf}
use riscvos.Memory.Vm.{Ram, load, pte_pa, is_mapped, is_user}

-- `PTE_R`, `PTE_W` and `PTE_X`.
abbrev pub is_readable : ℕ → Bool
is_readable pte = pte / 2 % 2 == 1

abbrev pub is_writable : ℕ → Bool
is_writable pte = pte / 4 % 2 == 1

abbrev pub is_executable : ℕ → Bool
is_executable pte = pte / 8 % 2 == 1

unfoldable pub permstr : ℕ → List ℕ
permstr pte =
    (if is_mapped pte then 118 else 45)
    ∷ (if is_readable pte then 114 else 45)
    ∷ (if is_writable pte then 119 else 45)
    ∷ (if is_executable pte then 120 else 45)
    ∷ (if is_user pte then 117 else 45)
    ∷ []

-- The loop of `printf(" ")`.
unfoldable pub indent : ℕ → List ℕ
indent zero = []
indent (suc n) = 32 ∷ indent n

-- The line of an entry, `va` and `pa` behind `%x` with their low 32 bits.
unfoldable pub dump_line : ℕ → ℕ → ℕ → List ℕ
unfolding permstr indent printf
dump_line level va pte =
    indent ((2 - level) * 2)
    ++ printf (codes "L%d  VA:0x%x -> PA:0x%x %s\n")
        (number level ∷ number va ∷ number (pte_pa pte) ∷ text (some (permstr pte)) ∷ [])

-- The loop over the last `n` entries; `below` prints the table under an entry, and at level 0 there is none.
unfoldable pub dump_entries : (ℕ → ℕ → List ℕ) → ℕ → ℕ → ℕ → Ram → ℕ → List ℕ
unfolding dump_line
dump_entries below level pt va_base m zero = []
dump_entries below level pt va_base m (suc n) =
    let i = 511 - n in
    let pte = load m (pt + 8 * i) in
    let va = bit_or va_base (i * 2 ^ (12 + 9 * level)) in
    let rest = dump_entries below level pt va_base m n in
    if is_mapped pte
    then dump_line level va pte
      ++ (if pte / 2 % 8 == 0 && ltb 0 level then below (pte_pa pte) va else [])
      ++ rest
    else rest

unfoldable pub dump_pagetable : ℕ → ℕ → ℕ → Ram → List ℕ
unfolding dump_entries
dump_pagetable zero pt va_base m = dump_entries (λ p v. []) 0 pt va_base m 512
dump_pagetable (suc level) pt va_base m =
    dump_entries (λ p v. dump_pagetable level p v m) (suc level) pt va_base m 512
