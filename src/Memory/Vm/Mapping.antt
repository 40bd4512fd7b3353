-- ===== src/Memory/Vm/Mapping.antt =====
-- kernel/vm.c: what `map_page` does to a page whose tables exist.
use riscvos.Common.{
  ℕ, ◌*◌, ◌/◌, ◌%◌, ◌^◌, ◌<◌, ◌≡◌, refl, ◌≢◌, Bool, true, some, ◌&&◌, arith, if_then, sym, ap, ◌∙◌,
}
use riscvos.Memory.Vm.{
  Ram, load, store, is_mapped, pte_pa, pte_addr, leaf, descend, walk_create, walk_lookup, map_page,
}

-- The two tables below the root are there, and the entry of `va` is neither of the two entries that lead to it.
pub record HasTables (pt va : ℕ) (m : Ram) : Type 0 where
  pub middle : is_mapped (load m (pte_addr pt va 2)) ≡ true
  pub last : is_mapped (load m (pte_addr (pte_pa (load m (pte_addr pt va 2))) va 1)) ≡ true
  pub apart₂ :
      pte_addr (pte_pa (load m (pte_addr (pte_pa (load m (pte_addr pt va 2))) va 1))) va 0 / 8
      ≢ pte_addr pt va 2 / 8
  pub apart₁ :
      pte_addr (pte_pa (load m (pte_addr (pte_pa (load m (pte_addr pt va 2))) va 1))) va 0 / 8
      ≢ pte_addr (pte_pa (load m (pte_addr pt va 2))) va 1 / 8

descend_mapped :
    (pt va level : ℕ) (m : Ram)
    → is_mapped (load m (pte_addr pt va level)) ≡ true
    → descend pt va level m ≡ some (pte_pa (load m (pte_addr pt va level)), m)
unfolding descend
descend_mapped pt va level m h = if_then (is_mapped (load m (pte_addr pt va level))) _ _ h

walk_lookup_tables :
    (pt va : ℕ) (m : Ram) (e₂ e₁ : ℕ)
    → load m (pte_addr pt va 2) ≡ e₂
    → load m (pte_addr (pte_pa e₂) va 1) ≡ e₁
    → is_mapped e₂ ≡ true
    → is_mapped e₁ ≡ true
    → walk_lookup pt va m ≡ some (pte_addr (pte_pa e₁) va 0)
unfolding walk_lookup
walk_lookup_tables pt va m e₂ e₁ l₂ l₁ h₂ h₁ =
    let last : is_mapped (load m (pte_addr (pte_pa (load m (pte_addr pt va 2))) va 1)) ≡ true =
      ap (λ e. is_mapped (load m (pte_addr (pte_pa e) va 1))) l₂ ∙ ap is_mapped l₁ ∙ h₁ in
    if_then _ _ _ (and_true (ap is_mapped l₂ ∙ h₂) last)
    ∙ ap (λ e. some (pte_addr (pte_pa (load m (pte_addr (pte_pa e) va 1))) va 0)) l₂
    ∙ ap (λ e. some (pte_addr (pte_pa e) va 0)) l₁
  where
    and_true : {a b : Bool} → a ≡ true → b ≡ true → a && b ≡ true
    and_true p q = rw (p, q) refl

store_ne : (a v w : ℕ) (m : Ram) → w ≢ a / 8 → (store a v m).word w ≡ m.word w
store_ne a v w m ne = ground arith

store_self : (a v : ℕ) (m : Ram) → load (store a v m) a ≡ v
store_self a v m = ground arith

-- Where the tables of an address exist, `map_page` of an aligned physical page below 2^56 with ten bits of permissions succeeds without a new page, whatever the entry was: `walk_lookup` finds the same
-- entry before and after, it is valid, its permission bits are those given and its page number is that of the physical page, and no other word of memory changes.
pub map_page-walk_lookup :
    (pt va pa perm : ℕ) (m : Ram)
    → pa % 2 ^ 12 ≡ 0
    → pa < 2 ^ 56
    → perm < 2 ^ 10
    → HasTables pt va m
    → (a : ℕ) × (m' : Ram) × (walk_lookup pt va m ≡ some a)
      × (map_page pt va pa perm m ≡ some m')
      × (walk_lookup pt va m' ≡ some a)
      × (load m' a % 2 ≡ 1)
      × (load m' a / 2 % 2 ^ 9 ≡ perm / 2)
      × (load m' a / 2 ^ 10 * 2 ^ 12 ≡ pa)
      × ((w : ℕ) → w ≢ a / 8 → m'.word w ≡ m.word w)
      × (m'.pmm ≡ m.pmm)
unfolding map_page walk_create
map_page-walk_lookup pt va pa perm m aligned low flags h =
    let e₂ = load m (pte_addr pt va 2) in
    let e₁ = load m (pte_addr (pte_pa e₂) va 1) in
    let a = pte_addr (pte_pa e₁) va 0 in
    let m' = store a (leaf pa perm) m in
    (
      a,
      m',
      walk_lookup_tables pt va m e₂ e₁ refl refl h.middle h.last,
      rw
          (
            descend_mapped pt va 2 m h.middle,
            descend_mapped (pte_pa e₂) va 1 m h.last,
            walk_create,
            map_page,
          )
          refl,
      walk_lookup_tables pt va m' e₂ e₁
          (store_ne a (leaf pa perm) (pte_addr pt va 2 / 8) m (λ q. h.apart₂ (sym q)))
          (store_ne a (leaf pa perm) (pte_addr (pte_pa e₂) va 1 / 8) m (λ q. h.apart₁ (sym q)))
          h.middle h.last,
      ap (λ e. e % 2) (store_self a (leaf pa perm) m) ∙ ground arith,
      ap (λ e. e / 2 % 2 ^ 9) (store_self a (leaf pa perm) m) ∙ ground arith,
      ap (λ e. e / 2 ^ 10 * 2 ^ 12) (store_self a (leaf pa perm) m) ∙ ground arith,
      λ w ne. store_ne a (leaf pa perm) w m ne,
      refl,
    )
