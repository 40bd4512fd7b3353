-- ===== src/Memory/Tests.antt =====
-- The free list at concrete states.
use riscvos.Common.{
  ℕ, ◌≢◌, ◌≡◌, some, refl, [], ◌∷◌, arith, if◌then◌else◌, ◌==◌, ◌-◌, ◌*◌, ◌/◌, ◌%◌, ◌^◌,
}
use riscvos.Memory.Vm.{map_page, load, Ram, copyin, copyin_from, user_page, walk_lookup}
use riscvos.Console.Printf.{codes}
use riscvos.Memory.Vm.Dump.{dump_pagetable}
use riscvos.Memory.Vm.Mapping.{HasTables, map_page-walk_lookup}
use riscvos.Memory.Vm.Copy.{fetch, copyin-fetch}
use riscvos.Memory.Pmm.{
  Pmm, end, link, Frees, free_page, pmm_init, freed, pg_round_up, pgsize, phystop, free_page-Frees,
  pmm_init-Frees,
}

abbrev two_pages : Pmm
two_pages = record { freelist = 8192; next = λ p. if p == 8192 then 4096 else 0 }

two_pages-Frees : Frees two_pages (8192 ∷ 4096 ∷ [])
two_pages-Frees = link (omega arith) (omega arith, tt) (link (omega arith) tt end)

free_page-Frees_example : Frees (free_page 12288 two_pages) (12288 ∷ 8192 ∷ 4096 ∷ [])
free_page-Frees_example =
    free_page-Frees 12288 two_pages (8192 ∷ 4096 ∷ []) two_pages-Frees (omega arith)
      (omega arith, (omega arith, tt))

abbrev no_pages : Pmm
no_pages = record { freelist = 0; next = λ p. 0 }

pmm_init-Frees_example :
    Frees
      (pmm_init 2281689000 no_pages)
      (freed (pg_round_up 2281689000) ((phystop - pg_round_up 2281689000) / pgsize) [])
pmm_init-Frees_example = pmm_init-Frees 2281689000 no_pages (omega arith) (omega arith) end

-- The root table at 4096 leads through 8192 and 12288 to the user page 16384.
abbrev mapped : Ram
mapped = record {
  pmm = no_pages;
  word =
      λ i. if i == 512 then 2049 else (if i == 1024 then 3073 else (if i == 1536 then 4113 else 7));
}

copyin-fetch_example : copyin 4096 8 3 mapped ≡ fetch 4096 8 3 mapped
copyin-fetch_example = copyin-fetch 4096 8 3 mapped (omega arith)

copyin_test : copyin 4096 8 3 mapped ≡ some (7 ∷ 0 ∷ 0 ∷ [])
unfolding copyin copyin_from user_page walk_lookup
copyin_test = refl

-- A root at 4096 with the tables for page 0 behind it.
abbrev tables : Ram
tables = record {
  pmm = record { freelist = 0; next = λ p. 0 };
  word = λ w. if w == 512 then 2049 else (if w == 1024 then 3073 else 0);
}

tables-HasTables : HasTables 4096 0 tables
tables-HasTables = record {
  middle = refl;
  last = refl;
  apart₂ = λ e. omega (arith, e);
  apart₁ = λ e. omega (arith, e);
}

map_page-walk_lookup_example :
    (a : ℕ) × (m' : Ram) × (walk_lookup 4096 0 tables ≡ some a)
    × (map_page 4096 0 36864 6 tables ≡ some m')
    × (walk_lookup 4096 0 m' ≡ some a)
    × (load m' a % 2 ≡ 1)
    × (load m' a / 2 % 2 ^ 9 ≡ 6 / 2)
    × (load m' a / 2 ^ 10 * 2 ^ 12 ≡ 36864)
    × ((w : ℕ) → w ≢ a / 8 → m'.word w ≡ tables.word w)
    × (m'.pmm ≡ tables.pmm)
map_page-walk_lookup_example =
    map_page-walk_lookup 4096 0 36864 6 tables refl (omega arith) (omega arith) tables-HasTables

-- A root whose entry 0 leads to a table whose entry 2 is a user page.
abbrev dumped : Ram
dumped = record {
  pmm = no_pages;
  word = λ w. if w == 512 then 2049 else (if w == 1026 then 3095 else 0);
}

dump_pagetable_test :
    dump_pagetable 2 4096 0 dumped
    ≡ codes "L2  VA:0x0 -> PA:0x2000 v----\n  L1  VA:0x400000 -> PA:0x3000 vrw-u\n"
unfolding dump_pagetable riscvos.Console.Printf.outc_back riscvos.Console.Printf.printu_digits
dump_pagetable_test = refl
