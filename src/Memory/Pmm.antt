-- ===== src/Memory/Pmm.antt =====
-- kernel/pmm.c: the list of free pages, threaded through the pages themselves. The null pointer is 0;
-- `next` is the first word of each page. The end of the kernel, which the linker sets, is a parameter.
use riscvos.Common.{
  ℕ, zero, suc, ◌+◌, ◌-◌, ◌*◌, ◌/◌, ◌<◌, ◌≤◌, ◌≡◌, ◌≢◌, subst, true, false, Option, none, some,
  List, [], ◌∷◌, arith, leb, ◌==◌, if◌then◌else◌, update, All,
}

abbrev pub pgsize : ℕ
pgsize = 4096

abbrev pub phystop : ℕ
phystop = 2281701376

abbrev pub pg_round_up : ℕ → ℕ
pg_round_up sz = (sz + 4095) / 4096 * 4096

pub record Pmm : Type 0 where
  pub freelist : ℕ
  pub next : ℕ → ℕ

unfoldable pub free_page : ℕ → Pmm → Pmm
free_page pa m = record { freelist = pa; next = update m.next pa m.freelist }

unfoldable pub alloc_page : Pmm → Option ℕ × Pmm
alloc_page m =
    if m.freelist == 0
    then (none, m)
    else (some m.freelist, record m { freelist = m.next m.freelist })

-- The loop of `pmm_init` from page `pa`.
unfoldable pub free_from : ℕ → ℕ → Pmm → Pmm
unfolding free_page
free_from zero pa m = m
free_from (suc k) pa m =
    let rest = free_from k (pa + pgsize) (free_page pa m) in
    if leb (pa + pgsize) phystop then rest else m

-- The number of pages below `phystop` bounds the rounds.
unfoldable pub pmm_init : ℕ → Pmm → Pmm
unfolding free_from
pmm_init kernel_end m = free_from (phystop / pgsize) (pg_round_up kernel_end) m

-- The free list from pointer `p` on holds these pages.
pub data Chain (next : ℕ → ℕ) : ℕ → List ℕ → Type 0 where
  end : Chain next 0 []
  link :
      {p : ℕ} {ps : List ℕ}
      → p ≢ 0
      → All (λ q. q ≢ p) ps
      → Chain next (next p) ps
      → Chain next p (p ∷ ps)

abbrev pub Frees : Pmm → List ℕ → Type 0
Frees m ps = Chain m.next m.freelist ps

Chain-frame :
    (next : ℕ → ℕ) (p v a : ℕ) (ps : List ℕ)
    → All (λ q. q ≢ p) ps
    → Chain next a ps
    → Chain (update next p v) a ps
Chain-frame next p v _ _ h end = end
Chain-frame next p v a _ h (link {ps = ps} nz d t) =
    let same : next a ≡ update next p v a = ground (arith, h.0) in
    link nz d
      (subst (λ z. Chain (update next p v) z ps) same (Chain-frame next p v (next a) ps h.1 t))

-- A page that is not null and not on the free list is put in front of it; the others stay.
pub free_page-Frees :
    (pa : ℕ) (m : Pmm) (ps : List ℕ)
    → Frees m ps
    → pa ≢ 0
    → All (λ q. q ≢ pa) ps
    → Frees (free_page pa m) (pa ∷ ps)
unfolding free_page
free_page-Frees pa m ps f nz d =
    let n' = update m.next pa m.freelist in
    let same : m.freelist ≡ n' pa = ground arith in
    link nz d (subst (λ z. Chain n' z ps) same (Chain-frame m.next pa m.freelist m.freelist ps d f))

-- What `alloc_page` does to a free list.
data Taken : List ℕ → Option ℕ × Pmm → Type 0 where
  nothing_left : {m : Pmm} → Frees m [] → Taken [] (none, m)
  taken :
      {p : ℕ} {ps : List ℕ} {m : Pmm}
      → All (λ q. q ≢ p) ps
      → Frees m ps
      → Taken (p ∷ ps) (some p, m)

alloc_page-Taken :
    (p : ℕ) (next : ℕ → ℕ) (ps : List ℕ)
    → Chain next p ps
    → Taken ps (alloc_page (record { freelist = p; next = next }))
unfolding alloc_page
alloc_page-Taken _ next _ end = nothing_left end
alloc_page-Taken p next _ (link nz d t) =
    let ne : (p == 0) ≡ false = ground arith in rw ne (taken d t)

-- `alloc_page` takes the first page off the free list, and the rest stay; on an empty list it returns null.
alloc_page-Frees : (m : Pmm) (ps : List ℕ) → Frees m ps → Taken ps (alloc_page m)
alloc_page-Frees m ps f = alloc_page-Taken m.freelist m.next ps f

-- The pages `pa`, `pa + 4096`, …, `n` of them, in front of `ps` in the order in which they are freed.
abbrev pub freed : ℕ → ℕ → List ℕ → List ℕ
freed pa zero ps = ps
freed pa (suc n) ps = freed (pa + pgsize) n (pa ∷ ps)

All-mono : {P Q : ℕ → Type 0} (ps : List ℕ) → ((q : ℕ) → P q → Q q) → All P ps → All Q ps
All-mono [] f h = tt
All-mono (p ∷ ps) f h = (f p h.0, All-mono ps f h.1)

free_from-Frees :
    (k n pa : ℕ) (m : Pmm) (ps : List ℕ)
    → pa + n * pgsize ≤ phystop
    → phystop < pa + n * pgsize + pgsize
    → n ≤ k
    → 0 < pa
    → All (λ q. q < pa) ps
    → Frees m ps
    → Frees (free_from k pa m) (freed pa n ps)
unfolding free_from
free_from-Frees zero zero pa m ps lo hi le nz b f = f
free_from-Frees zero (suc n) pa m ps lo hi le nz b f = absurd (omega arith)
free_from-Frees (suc k) zero pa m ps lo hi le nz b f =
    let stop : leb (pa + pgsize) phystop ≡ false = ground arith in rw stop f
free_from-Frees (suc k) (suc n) pa m ps lo hi le nz b f =
    let more : leb (pa + pgsize) phystop ≡ true = ground arith in
    rw more (
      free_from-Frees k n (pa + pgsize) (free_page pa m) (pa ∷ ps) (omega arith) (omega arith)
        (omega arith) (omega arith) (omega arith, All-mono ps (λ q h. omega arith) b)
        (free_page-Frees pa m ps f (omega arith) (All-mono ps (λ q h. omega arith) b)))

-- From an empty free list, `pmm_init` frees every whole page from the end of the kernel up to `PHYSTOP`, each once.
pub pmm_init-Frees :
    (kernel_end : ℕ) (m : Pmm)
    → 0 < kernel_end
    → kernel_end ≤ phystop
    → Frees m []
    → Frees
        (pmm_init kernel_end m)
        (freed (pg_round_up kernel_end) ((phystop - pg_round_up kernel_end) / pgsize) [])
unfolding pmm_init
pmm_init-Frees kernel_end m lo hi f =
    free_from-Frees (phystop / pgsize) ((phystop - pg_round_up kernel_end) / pgsize)
      (pg_round_up kernel_end) m [] (omega arith) (omega arith) (omega arith) (omega arith) tt f
