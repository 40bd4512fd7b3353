-- ===== src/Memory/Vm/Copy.antt =====
-- kernel/vm.c: `copyin` reads what the page table maps for the user, byte by byte.
use riscvos.Common.{
  ℕ, zero, suc, ◌+◌, ◌-◌, ◌*◌, ◌/◌, ◌%◌, ◌^◌, ◌<◌, ◌≤◌, ◌≡◌, refl, sym, ap, ap₂, ◌∙◌, ◌⊎◌, inl, inr,
  Bool, true, false, ◌&&◌, if◌then◌else◌, Option, none, some, Option-cases, Bool-cases, List, [],
  ◌∷◌, ◌++◌, arith, ltb, ◌==◌,
}
use riscvos.Memory.Pmm.{pgsize}
use riscvos.Memory.Vm.{
  Ram, load, pte_pa, is_mapped, is_user, vpn, walk_lookup, byte, page_down, user_page, run,
  bytes_at, copyin_from, copyin,
}

-- Three-level translation of the RISC-V manual, independent of the code: an entry of a table, and the table or page that it names.
abbrev pub entry : ℕ → ℕ → ℕ → Ram → ℕ
entry table va level m = m.word ((table + 8 * (va / 2 ^ (12 + 9 * level) % 2 ^ 9)) / 8)

abbrev pub frame : ℕ → ℕ
frame e = e / 2 ^ 10 * 2 ^ 12 % 2 ^ 64

-- Bit 0 is V, and bit 4 is U.
abbrev pub is_valid : ℕ → Bool
is_valid e = e % 2 == 1

abbrev pub for_user : ℕ → Bool
for_user e = e / 2 ^ 4 % 2 == 1

abbrev pub translate : ℕ → ℕ → Ram → Option ℕ
translate pt va m =
    let e₂ = entry pt va 2 m in
    let e₁ = entry (frame e₂) va 1 m in
    let e₀ = entry (frame e₁) va 0 m in
    if is_valid e₂ && is_valid e₁ && is_valid e₀ && for_user e₀ then some (frame e₀) else none

-- One byte of user memory.
abbrev pub user_byte : ℕ → ℕ → Ram → Option ℕ
user_byte pt va m = elim (translate pt va m) [
  | none ↦ none
  | some pa ↦ some (byte m (pa + va % 2 ^ 12))
]

-- The code looks a page up at its first address.
looked_up :
    (a b : Bool) (c d : ℕ → Bool) (x : ℕ) (pa : ℕ → ℕ)
    → ◌≡◌ {A = Option ℕ}
        (elim (if a && b then some x else none) [
          | none ↦ none
          | some y ↦ if c y && d y then some (pa y) else none
        ])
        (if a && b && c x && d x then some (pa x) else none)
looked_up true true c d x pa = refl
looked_up true false c d x pa = refl
looked_up false b c d x pa = refl

-- The lookup by the three indices of a page.
abbrev page_via : ℕ → ℕ → ℕ → ℕ → Ram → Option ℕ
page_via pt i₂ i₁ i₀ m =
    let e₂ = load m (pt + 8 * i₂) in
    let e₁ = load m (pte_pa e₂ + 8 * i₁) in
    elim (if is_mapped e₂ && is_mapped e₁ then some (pte_pa e₁ + 8 * i₀) else none) [
      | none ↦ none
      | some a ↦
          if is_mapped (load m a) && is_user (load m a) then some (pte_pa (load m a)) else none
    ]

user_page-page_via :
    (pt va : ℕ) (m : Ram) → user_page pt va m ≡ page_via pt (vpn va 2) (vpn va 1) (vpn va 0) m
unfolding user_page walk_lookup
user_page-page_via pt va m = refl

page_via-translate :
    (pt va : ℕ) (m : Ram)
    → page_via pt (va / 2 ^ 30 % 512) (va / 2 ^ 21 % 512) (va / 2 ^ 12 % 512) m ≡ translate pt va m
page_via-translate pt va m =
    let e₂ = entry pt va 2 m in
    let e₁ = entry (frame e₂) va 1 m in
    looked_up (is_mapped e₂) (is_mapped e₁) (λ a. is_mapped (load m a)) (λ a. is_user (load m a))
      (pte_pa e₁ + 8 * (va / 2 ^ 12 % 512)) (λ a. pte_pa (load m a))

user_page-translate : (pt va : ℕ) (m : Ram) → user_page pt (page_down va) m ≡ translate pt va m
user_page-translate pt va m =
    let i₂ : vpn (page_down va) 2 ≡ va / 2 ^ 30 % 512 = omega arith in
    let i₁ : vpn (page_down va) 1 ≡ va / 2 ^ 21 % 512 = omega arith in
    let i₀ : vpn (page_down va) 0 ≡ va / 2 ^ 12 % 512 = omega arith in
    user_page-page_via pt (page_down va) m
    ∙ ap₂ (λ x y. page_via pt x y (vpn (page_down va) 0) m) i₂ i₁
    ∙ ap (λ z. page_via pt (va / 2 ^ 30 % 512) (va / 2 ^ 21 % 512) z m) i₀
    ∙ page_via-translate pt va m

-- A byte of a page that is looked up.
user_byte-found :
    (pt va pa : ℕ) (m : Ram)
    → user_page pt (page_down va) m ≡ some pa
    → user_byte pt va m ≡ some (byte m (pa + va % 2 ^ 12))
user_byte-found pt va pa m e =
    ap
      (λ (r : Option ℕ). elim r as (λ _. Option ℕ) [
        | none ↦ none
        | some q ↦ some (byte m (q + va % 2 ^ 12))
      ])
      (sym (user_page-translate pt va m) ∙ e)

abbrev cons? : Option ℕ → Option (List ℕ) → Option (List ℕ)
cons? none r = none
cons? (some b) none = none
cons? (some b) (some bs) = some (b ∷ bs)

-- `n` bytes of user memory, one at a time; `none` if one of them is not the user's.
abbrev pub fetch : ℕ → ℕ → ℕ → Ram → Option (List ℕ)
fetch pt va zero m = some []
fetch pt va (suc n) m = cons? (user_byte pt va m) (fetch pt (va + 1) n m)

abbrev append? : List ℕ → Option (List ℕ) → Option (List ℕ)
append? xs none = none
append? xs (some ys) = some (xs ++ ys)

append?-nil : (r : Option (List ℕ)) → append? [] r ≡ r
append?-nil none = refl
append?-nil (some ys) = refl

append?-elim :
    (xs : List ℕ) (r : Option (List ℕ))
    → ◌≡◌ {A = Option (List ℕ)} (elim r [ none ↦ none | some bs ↦ some (xs ++ bs) ]) (append? xs r)
append?-elim xs none = refl
append?-elim xs (some ys) = refl

cons?-append? :
    (b : ℕ) (xs : List ℕ) (r : Option (List ℕ)) → cons? (some b) (append? xs r) ≡ append? (b ∷ xs) r
cons?-append? b xs none = refl
cons?-append? b xs (some ys) = refl

user_byte_mapped :
    (pt v0 o pa : ℕ) (m : Ram)
    → user_page pt (v0 * pgsize) m ≡ some pa
    → o < pgsize
    → user_byte pt (v0 * pgsize + o) m ≡ some (byte m (pa + o))
user_byte_mapped pt v0 o pa m e h =
    let start : v0 * pgsize ≡ page_down (v0 * pgsize + o) = omega arith in
    let offset : (v0 * pgsize + o) % 2 ^ 12 ≡ o = omega arith in
    user_byte-found pt (v0 * pgsize + o) pa m (ap (λ a. user_page pt a m) (sym start) ∙ e)
    ∙ ap (λ k. some (byte m (pa + k))) offset

-- A run within one page.
fetch-run :
    (pt v0 o pa k n : ℕ) (m : Ram)
    → user_page pt (v0 * pgsize) m ≡ some pa
    → o + k ≤ pgsize
    → fetch pt (v0 * pgsize + o) (k + n) m
      ≡ append? (bytes_at m (pa + o) k) (fetch pt (v0 * pgsize + o + k) n m)
fetch-run pt v0 o pa zero n m e h =
    let e₀ : v0 * pgsize + o ≡ v0 * pgsize + o + 0 = omega arith in
    let e₁ : 0 + n ≡ n = omega arith in
    ap₂ (λ a c. fetch pt a c m) e₀ e₁ ∙ sym (append?-nil (fetch pt (v0 * pgsize + o + 0) n m))
fetch-run pt v0 o pa (suc k) n m e h =
    let e₀ : suc k + n ≡ suc (k + n) = omega arith in
    let e₁ : v0 * pgsize + o + 1 ≡ v0 * pgsize + (o + 1) = omega arith in
    let e₂ : v0 * pgsize + (o + 1) + k ≡ v0 * pgsize + o + suc k = omega arith in
    let e₃ : pa + (o + 1) ≡ pa + o + 1 = omega arith in
    ap (λ c. fetch pt (v0 * pgsize + o) c m) e₀
    ∙ ap₂ cons? (user_byte_mapped pt v0 o pa m e (omega arith)) (
        ap (λ a. fetch pt a (k + n) m) e₁
        ∙ fetch-run pt v0 (o + 1) pa k n m e (omega arith)
        ∙ ap₂ (λ x y. append? (bytes_at m x k) (fetch pt y n m)) e₃ e₂)
    ∙ cons?-append? (byte m (pa + o)) (bytes_at m (pa + o + 1) k)
        (fetch pt (v0 * pgsize + o + suc k) n m)

fetch-none :
    (pt va n : ℕ) (m : Ram) → 0 < n → user_page pt (page_down va) m ≡ none → fetch pt va n m ≡ none
fetch-none pt va zero m h e = absurd (omega arith)
fetch-none pt va (suc n) m h e =
    let no_byte : user_byte pt va m ≡ none =
      ap
        (λ (r : Option ℕ). elim r as (λ _. Option ℕ) [
          | none ↦ none
          | some q ↦ some (byte m (q + va % 2 ^ 12))
        ])
        (sym (user_page-translate pt va m) ∙ e) in
    ap (λ b. cons? b (fetch pt (va + 1) n m)) no_byte

-- The first run of a range, and the rest.
fetch_first :
    (pt va n pa : ℕ) (m : Ram)
    → user_page pt (page_down va) m ≡ some pa
    → fetch pt va n m
      ≡ append?
          (bytes_at m (pa + (va - page_down va)) (run va n))
          (fetch pt (va + run va n) (n - run va n) m)
fetch_first pt va n pa m e =
    let whole : va ≡ va / pgsize * pgsize + (va - page_down va) = omega arith in
    let parts : n ≡ run va n + (n - run va n) = ground arith in
    let fits : va - page_down va + run va n ≤ pgsize = ground arith in
    let back : va / pgsize * pgsize + (va - page_down va) + run va n ≡ va + run va n =
      omega arith in
    ap₂ (λ a c. fetch pt a c m) whole parts
    ∙ fetch-run pt (va / pgsize) (va - page_down va) pa (run va n) (n - run va n) m e fits
    ∙ ap
        (λ a.
          append? (bytes_at m (pa + (va - page_down va)) (run va n)) (fetch pt a (n - run va n) m))
        back

fetch_next :
    (pt va n : ℕ) (m : Ram)
    → va + n ≤ 2 ^ 64
    → fetch pt ((page_down va + pgsize) % 2 ^ 64) (n - run va n) m
      ≡ fetch pt (va + run va n) (n - run va n) m
fetch_next pt va n m h = elim (Bool-cases (ltb n (pgsize - (va - page_down va)))) [
  | inl y ↦ let none_left : n - run va n ≡ 0 = ground arith in rw none_left refl
  | inr ge ↦ elim (Bool-cases (n - run va n == 0)) [
    | inl z ↦ let none_left : n - run va n ≡ 0 = ground arith in rw none_left refl
    | inr some_left ↦
        let same : (page_down va + pgsize) % 2 ^ 64 ≡ va + run va n = ground arith in
        ap (λ a. fetch pt a (n - run va n) m) same
  ]
]

copyin_from-fetch :
    (k pt va n : ℕ) (m : Ram)
    → (n ≡ 0) ⊎ (va % pgsize + n ≤ k * pgsize)
    → va + n ≤ 2 ^ 64
    → copyin_from k pt va n m ≡ fetch pt va n m
unfolding copyin_from
copyin_from-fetch zero pt va n m h w = let z : n ≡ 0 = ground arith in rw z refl
copyin_from-fetch (suc k) pt va n m h w = elim (Bool-cases (n == 0)) [
  | inl y ↦ let z : n ≡ 0 = ground arith in rw z refl
  | inr nz ↦ elim (Option-cases (user_page pt (page_down va) m)) [
    | inl e ↦ rw (copyin_from, nz, e) (sym (fetch-none pt va n m (ground arith) e))
    | inr (pa, e) ↦
        let left : (n - run va n ≡ 0)
            ⊎ ((page_down va + pgsize) % 2 ^ 64 % pgsize + (n - run va n) ≤ k * pgsize) =
          run_left k va n h nz in
        let ih =
          copyin_from-fetch k pt ((page_down va + pgsize) % 2 ^ 64) (n - run va n) m left
            (run_fits va n w)
          ∙ fetch_next pt va n m w in
        rw (copyin_from, nz, e, ih)
          (append?-elim (bytes_at m (pa + (va - page_down va)) (run va n))
              (fetch pt (va + run va n) (n - run va n) m)
            ∙ sym (fetch_first pt va n pa m e))
  ]
]
  where
    run_left :
        (k va n : ℕ)
        → (n ≡ 0) ⊎ (va % pgsize + n ≤ suc k * pgsize)
        → (n == 0) ≡ false
        → (n - run va n ≡ 0)
          ⊎ ((page_down va + pgsize) % 2 ^ 64 % pgsize + (n - run va n) ≤ k * pgsize)
    run_left k va n h nz = elim (Bool-cases (ltb n (pgsize - (va - page_down va)))) [
      | inl y ↦ rw y (inl (omega arith))
      | inr ge ↦
          let le : pgsize - (va - page_down va) ≤ n = ground arith in
          let bound : va % pgsize + n ≤ suc k * pgsize = ground arith in rw ge (inr (omega arith))
    ]

    run_fits :
        (va n : ℕ) → va + n ≤ 2 ^ 64 → (page_down va + pgsize) % 2 ^ 64 + (n - run va n) ≤ 2 ^ 64
    run_fits va n h = ground arith

-- `copyin` of a range below 2^64 returns its bytes as the page table maps them for the user, one by one, and -1 if any one of
-- them is not mapped for the user; it runs to its end.
pub copyin-fetch : (pt va n : ℕ) (m : Ram) → va + n ≤ 2 ^ 64 → copyin pt va n m ≡ fetch pt va n m
unfolding copyin
copyin-fetch pt va n m h = copyin_from-fetch (n / pgsize + 2) pt va n m (inr (omega arith)) h
