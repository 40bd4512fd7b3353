-- ===== src/Memory/Vm.antt =====
-- kernel/vm.c: page tables, and copies between the kernel and a process.
--
-- `word` is the memory by 64-bit words, whose index is the address divided by 8. The first word of a free
-- page is in `pmm.next`. A return value of -1 or a null pointer is `none`; `none` of `walk_create`
-- and what calls it is a store through the null pointer that a failed `alloc_page` returns.
pub mod Copy
pub mod Dump
pub mod Init
pub mod Mapping
use riscvos.Common.{
  ℕ, zero, suc, ◌+◌, ◌-◌, ◌*◌, ◌/◌, ◌%◌, ◌^◌, Bool, true, false, ◌&&◌, Option, none, some, List, [],
  ◌∷◌, ◌++◌, length, ltb, leb, ◌==◌, if◌then◌else◌, update,
}
use riscvos.Memory.Pmm.{Pmm, pgsize, alloc_page}

pub record Ram : Type 0 where
  pub pmm : Pmm
  pub word : ℕ → ℕ

abbrev pub pte_pa : ℕ → ℕ
pte_pa pte = pte / 2 ^ 10 * 2 ^ 12 % 2 ^ 64

abbrev pub pa_pte : ℕ → ℕ
pa_pte pa = pa / 2 ^ 12 * 2 ^ 10

-- `VPN_MASK`.
abbrev pub vpn : ℕ → ℕ → ℕ
vpn va level = va / 2 ^ (12 + 9 * level) % 512

-- `PTE_V` and `PTE_U`.
abbrev pub is_mapped : ℕ → Bool
is_mapped pte = pte % 2 == 1

abbrev pub is_user : ℕ → Bool
is_user pte = pte / 16 % 2 == 1

-- The address of `pt[VPN_MASK(va, level)]`.
abbrev pub pte_addr : ℕ → ℕ → ℕ → ℕ
pte_addr pt va level = pt + 8 * vpn va level

abbrev pub load : Ram → ℕ → ℕ
load m a = m.word (a / 8)

abbrev pub store : ℕ → ℕ → Ram → Ram
store a v m = record m { word = update m.word (a / 8) v }

-- The loop that clears a new table.
abbrev pub clear_page : ℕ → Ram → Ram
clear_page pt m = record m {
  word = λ i. if leb (pt / 8) i && ltb i (pt / 8 + 512) then 0 else m.word i;
}

-- One round of `walk_create`: the table below `pt`.
unfoldable pub descend : ℕ → ℕ → ℕ → Ram → Option (ℕ × Ram)
descend pt va level m =
    let a = pte_addr pt va level in
    if is_mapped (load m a)
    then some (pte_pa (load m a), m)
    else (let r = alloc_page m.pmm in
        elim r.0 [
          | none ↦ none
          | some newpt ↦
              some (newpt, store a (pa_pte newpt + 1) (clear_page newpt (record m { pmm = r.1 })))
        ])

unfoldable pub walk_create : ℕ → ℕ → Ram → Option (ℕ × Ram)
unfolding descend
walk_create pt va m = elim (descend pt va 2 m) [
  | none ↦ none
  | some r ↦ elim (descend r.0 va 1 r.1) [ none ↦ none | some q ↦ some (pte_addr q.0 va 0, q.1) ]
]

unfoldable pub walk_lookup : ℕ → ℕ → Ram → Option ℕ
walk_lookup pt va m =
    let e₂ = load m (pte_addr pt va 2) in
    let e₁ = load m (pte_addr (pte_pa e₂) va 1) in
    if is_mapped e₂ && is_mapped e₁ then some (pte_addr (pte_pa e₁) va 0) else none

unfoldable pub create_pagetable : Ram → Option (ℕ × Ram)
create_pagetable m =
    let r = alloc_page m.pmm in
    elim r.0 [ none ↦ none | some pt ↦ some (pt, clear_page pt (record m { pmm = r.1 })) ]

-- The entry of `map_page`, for permissions among the low ten bits.
abbrev pub leaf : ℕ → ℕ → ℕ
leaf pa perm = pa_pte pa + (if perm % 2 == 1 then perm else perm + 1)

unfoldable pub map_page : ℕ → ℕ → ℕ → ℕ → Ram → Option Ram
unfolding walk_create
map_page pt va pa perm m = elim (walk_create pt va m) [
  | none ↦ none
  | some r ↦ some (store r.0 (leaf pa perm) r.1)
]

abbrev pub byte : Ram → ℕ → ℕ
byte m a = load m a / 2 ^ (8 * (a % 8)) % 256

abbrev pub set_byte : ℕ → ℕ → Ram → Ram
set_byte a v m = store a (load m a - byte m a * 2 ^ (8 * (a % 8)) + v % 256 * 2 ^ (8 * (a % 8))) m

abbrev pub page_down : ℕ → ℕ
page_down a = a / pgsize * pgsize

-- The physical page of a user page, as the three copies look it up.
unfoldable pub user_page : ℕ → ℕ → Ram → Option ℕ
unfolding walk_lookup
user_page pt va0 m = elim (walk_lookup pt va0 m) [
  | none ↦ none
  | some a ↦ if is_mapped (load m a) && is_user (load m a) then some (pte_pa (load m a)) else none
]

-- The bytes up to the end of the page, and no more than are left.
abbrev pub run : ℕ → ℕ → ℕ
run va n = if ltb n (pgsize - (va - page_down va)) then n else pgsize - (va - page_down va)

abbrev pub bytes_at : Ram → ℕ → ℕ → List ℕ
bytes_at m a zero = []
bytes_at m a (suc n) = byte m a ∷ bytes_at m (a + 1) n

unfoldable pub copyin_from : ℕ → ℕ → ℕ → ℕ → Ram → Option (List ℕ)
unfolding user_page
copyin_from zero pt va n m = some []
copyin_from (suc k) pt va n m = elim (n == 0) [
  | true ↦ some []
  | false ↦ elim (user_page pt (page_down va) m) [
    | none ↦ none
    | some pa ↦ elim (copyin_from k pt ((page_down va + pgsize) % 2 ^ 64) (n - run va n) m) [
      | none ↦ none
      | some bs ↦ some (bytes_at m (pa + (va - page_down va)) (run va n) ++ bs)
    ]
  ]
]

-- A round reaches the end of a page or of the range, which bounds the rounds.
unfoldable pub copyin : ℕ → ℕ → ℕ → Ram → Option (List ℕ)
unfolding copyin_from
copyin pt va n m = copyin_from (n / pgsize + 2) pt va n m

abbrev pub put_bytes : ℕ → (ℕ → ℕ) → ℕ → ℕ → Ram → Ram
put_bytes a src i zero m = m
put_bytes a src i (suc n) m = put_bytes (a + 1) src (i + 1) n (set_byte a (src i) m)

-- `copyout`: what was copied before a failure stays copied.
unfoldable pub copyout_from : ℕ → ℕ → ℕ → (ℕ → ℕ) → ℕ → ℕ → Ram → Bool × Ram
unfolding user_page
copyout_from zero pt va src i n m = (true, m)
copyout_from (suc k) pt va src i n m = elim (n == 0) [
  | true ↦ (true, m)
  | false ↦ elim (user_page pt (page_down va) m) [
    | none ↦ (false, m)
    | some pa ↦
        copyout_from k pt ((page_down va + pgsize) % 2 ^ 64) src (i + run va n) (n - run va n)
          (put_bytes (pa + (va - page_down va)) src i (run va n) m)
  ]
]

unfoldable pub copyout : ℕ → ℕ → (ℕ → ℕ) → ℕ → Ram → Bool × Ram
unfolding copyout_from
copyout pt va src n m = copyout_from (n / pgsize + 2) pt va src 0 n m

-- The inner loop of `copyinstr`: the characters up to a NUL, and whether there is one in the run.
unfoldable pub scan : Ram → ℕ → ℕ → List ℕ × Bool
scan m a zero = ([], false)
scan m a (suc n) =
    let rest = scan m (a + 1) n in if byte m a == 0 then ([], true) else (byte m a ∷ rest.0, rest.1)

unfoldable pub copyinstr_from : ℕ → ℕ → ℕ → ℕ → Ram → Option (List ℕ)
unfolding user_page scan
copyinstr_from zero pt va left m = none
copyinstr_from (suc k) pt va left m = elim (left == 0) [
  | true ↦ none
  | false ↦ elim (user_page pt (page_down va) m) [
    | none ↦ none
    | some pa ↦
        let r = scan m (pa + (va - page_down va)) (run va left) in
        elim r.1 [
          | true ↦ some r.0
          | false ↦
              elim (copyinstr_from k pt ((page_down va + pgsize) % 2 ^ 64) (left - run va left) m) [
                | none ↦ none
                | some cs ↦ some (r.0 ++ cs)
              ]
        ]
  ]
]

-- The string without its NUL.
unfoldable pub copyinstr : ℕ → ℕ → ℕ → Ram → Option (List ℕ)
unfolding copyinstr_from
copyinstr pt va left m = copyinstr_from (left / pgsize + 2) pt va left m
