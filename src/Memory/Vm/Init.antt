-- ===== src/Memory/Vm/Init.antt =====
-- kernel/vm_init.c: the page table of the kernel, which maps every address to itself.
use riscvos.Common.{ℕ, zero, suc, ◌+◌, ◌-◌, ◌/◌, ◌^◌, Option, none, some, ltb, if◌then◌else◌}
use riscvos.Memory.Pmm.{pgsize, phystop, pg_round_up}
use riscvos.Memory.Vm.{Ram, page_down, create_pagetable, map_page}

infixl 5 ◌>>=◌
abbrev ◌>>=◌ {ℓ κ} : {A : Type ℓ} {B : Type κ} → Option A → (A → Option B) → Option B
none >>= f = none
some a >>= f = f a

-- The loop of `map_region` for `k` pages.
unfoldable pub map_pages : ℕ → ℕ → ℕ → ℕ → ℕ → Ram → Option Ram
map_pages zero pt a pa perm m = some m
map_pages (suc k) pt a pa perm m = elim (map_page pt a pa perm m) [
  | none ↦ none
  | some m' ↦ map_pages k pt (a + pgsize) (pa + pgsize) perm m'
]

-- The rounds of `map_region`: from the page of `va` to the page that begins at or behind its last byte, that one included.
unfoldable pub region_pages : ℕ → ℕ → ℕ
region_pages va size =
    let last = pg_round_up (va + size - 1) in
    if ltb last (page_down va) then 0 else (last - page_down va) / pgsize + 1

unfoldable pub map_region : ℕ → ℕ → ℕ → ℕ → ℕ → Ram → Option Ram
unfolding map_pages region_pages
map_region pt va pa size perm m = map_pages (region_pages va size) pt (page_down va) pa perm m

-- The calls of `kvminit` on the new table; `trampoline` is the address of the code.
unfoldable pub map_kernel : ℕ → ℕ → Ram → Option Ram
unfolding map_region
map_kernel trampoline pt m = do
  m₁ ← map_region pt 2149580800 2149580800 (phystop - 2149580800) 14 m
  m₂ ← map_page pt 268435456 268435456 6 m₁
  m₃ ← map_region pt 2147483648 2147483648 2097152 10 m₂
  m₄ ← map_page pt (2 ^ 38 - pgsize) trampoline 10 m₃
  map_page pt 268439552 268439552 6 m₄

unfoldable pub kvminit : ℕ → Ram → Option (ℕ × Ram)
unfolding map_kernel
kvminit trampoline m = do r ← create_pagetable m; m' ← map_kernel trampoline r.0 r.1; some (r.0, m')
