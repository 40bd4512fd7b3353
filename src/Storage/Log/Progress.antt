-- ===== src/Storage/Log/Progress.antt =====
-- kernel/log.c: a commit and a recovery run to their end, if two buffers of the cache can be recycled.
use riscvos.Common.{
  ℕ, zero, suc, ◌+◌, ◌*◌, ◌<◌, ◌≤◌, ◌^◌, ◌≡◌, refl, ◌≢◌, ◌∙◌, Bool, true, false, arith,
}
use riscvos.Common.Outcome.{Outcome, done, ◌>>=◌}
use riscvos.Storage.Bio.{Bcache, bread}
use riscvos.Storage.Bio.Lookup.{listed}
use riscvos.Storage.Bio.Invariant.{IsValid}
use riscvos.Storage.Bio.Ops.{Below, bread-Read}
use riscvos.Storage.Bio.Progress.{Idle, Spare, bread-total, bread_twice-total}
use riscvos.Storage.Log.{
  Log, slot, log_entry, write_log_from, install_entry, install_from, write_head, read_head,
}
use riscvos.Storage.Log.Copy.{Copied, log_entry-Copied, install_entry-Copied}
use riscvos.Storage.Log.Trace.{IsPlaced, slot_eq}
use riscvos.Storage.Log.Recover.{HeadRead}
use riscvos.Storage.Log.Commit.{Headed}

-- What keeps a pair of buffers recyclable.
record Restores (c c' : Bcache) : Type 0 where
  refs : (x : ℕ) → (c'.buf x).refcnt ≡ (c.buf x).refcnt
  listed_kept : (x : ℕ) → listed x c.lru ≡ true → listed x c'.lru ≡ true
  clean : (x : ℕ) → (c.buf x).disk ≡ false → (c'.buf x).disk ≡ false

Restores-Spare : {a b : ℕ} {c c' : Bcache} → Restores c c' → Spare c a b → Spare c' a b
Restores-Spare {c = c} {c' = c'} r s = record {
  apart = s.apart;
  first = keep s.first;
  second = keep s.second;
}
  where
    keep : {x : ℕ} → Idle c x → Idle c' x
    keep {x} i = record {
      on_list = r.listed_kept x i.on_list;
      unused = r.refs x ∙ i.unused;
      clean = r.clean x i.clean;
    }

abbrev pub Returns {ℓ} : {A : Type ℓ} → Outcome A → Type ℓ
Returns {A = A} m = (a : A) × (m ≡ done a)

pub >>=-Returns {ℓ κ} :
    {A : Type ℓ} {B : Type κ} (m : Outcome A) (f : A → Outcome B)
    → (r : Returns m) → Returns (f r.0)
    → Returns (m >>= f)
>>=-Returns m f (a, e) (b, e') = (b, rw e e')

module _ (l : Log) (c : Bcache) {a b : ℕ} (v : IsValid l.dev c) (s : Spare c a b) where
  two_reads :
      (m n : ℕ) (f : ℕ × Bcache → ℕ × Bcache → Bcache)
      → m ≢ 0
      → Returns (bread l.dev m c >>= λ x. bread l.dev n x.1 >>= λ y. done (f x y))
  two_reads m n f h =
      let r₁ = bread-total l.dev m c s.first in
      let r₂ = bread_twice-total l.dev m n c s (bread-Read v h r₁.1) in
      >>=-Returns (bread l.dev m c) _ r₁ (>>=-Returns (bread l.dev n r₁.0.1) _ r₂ (_, refl))

  log_entry-Returns : (tail : ℕ) → slot l tail ≢ 0 → Returns (log_entry l tail c)
  unfolding log_entry
  log_entry-Returns tail h = two_reads (slot l tail) (l.block tail) _ h

  install_entry-Returns :
      (recovering : Bool) (tail : ℕ) → slot l tail ≢ 0 → Returns (install_entry recovering l tail c)
  unfolding install_entry
  install_entry-Returns recovering tail h = two_reads (slot l tail) (l.block tail) _ h

  pub read_head-Returns : l.start ≢ 0 → Returns (read_head l c)
  unfolding read_head
  read_head-Returns h =
      >>=-Returns (bread l.dev l.start c) _ (bread-total l.dev l.start c s.first) (_, refl)

  pub write_head-Returns : l.start ≢ 0 → Returns (write_head l c)
  unfolding write_head
  write_head-Returns h =
      >>=-Returns (bread l.dev l.start c) _ (bread-total l.dev l.start c s.first) (_, refl)

Copied-Spare :
    {dev m n r a b : ℕ} {c c' : Bcache} → Copied dev m n r c c' → Spare c a b → Spare c' a b
Copied-Spare k =
    Restores-Spare (record { refs = k.refs; listed_kept = k.listed_kept; clean = k.clean })

pub Headed-Spare :
    {l : Log} {r a b : ℕ} {c c' : Bcache} → Headed l r c c' → Spare c a b → Spare c' a b
Headed-Spare k =
    Restores-Spare (record { refs = k.refs; listed_kept = k.listed_kept; clean = k.clean })

pub HeadRead-Spare :
    {l l' : Log} {r a b : ℕ} {c c' : Bcache} → HeadRead l r c l' c' → Spare c a b → Spare c' a b
HeadRead-Spare k =
    Restores-Spare (record { refs = k.refs; listed_kept = k.listed_kept; clean = k.clean })

-- A run of the loop over the entries, with two buffers still recyclable at its end.
abbrev pub Runs : ℕ → ℕ → Outcome Bcache → Type 0
Runs a b m = (c' : Bcache) × (m ≡ done c') × Spare c' a b

tail_facts :
    {l : Log} (w : IsPlaced l) (tail : ℕ)
    → tail < l.n
    → (slot l tail ≢ 0) × (l.block tail ≢ 0) × (slot l tail ≢ l.block tail)
tail_facts w tail h =
    let s = slot_eq w tail h in
    (omega arith, w.home_ne_zero tail h, omega (arith, w.home tail h, w.few))

module _ (l : Log) (w : IsPlaced l) {a b : ℕ} where
  pub write_log_from-Runs :
      (k tail r : ℕ) (c : Bcache)
      → tail + k ≤ l.n
      → IsValid l.dev c
      → Below r c
      → r + 2 * k + 2 < 2 ^ 32
      → Spare c a b
      → Runs a b (write_log_from l tail k c)
  unfolding write_log_from
  write_log_from-Runs zero tail r c le v u small s = (c, refl, s)
  write_log_from-Runs (suc k) tail r c le v u small s =
      let (d, e) = log_entry-Returns l c v s tail (tail_facts w tail (omega arith)).0 in
      let f = tail_facts w tail (omega arith) in
      let t = log_entry-Copied l tail v f.0 f.1 f.2 u (omega arith) e in
      let (c', e', s') =
        write_log_from-Runs k (tail + 1) (r + 2) d (omega arith) t.valid t.below (omega arith)
          (Copied-Spare t s) in
      (c', rw e e', s')

  pub install_from-Runs :
      (recovering : Bool) (k tail r : ℕ) (c : Bcache)
      → tail + k ≤ l.n
      → IsValid l.dev c
      → Below r c
      → r + 2 * k + 2 < 2 ^ 32
      → Spare c a b
      → Runs a b (install_from recovering l tail k c)
  unfolding install_from
  install_from-Runs recovering zero tail r c le v u small s = (c, refl, s)
  install_from-Runs recovering (suc k) tail r c le v u small s =
      let (d, e) =
        install_entry-Returns l c v s recovering tail (tail_facts w tail (omega arith)).0 in
      let f = tail_facts w tail (omega arith) in
      let t = install_entry-Copied l tail v f.0 f.1 f.2 u (omega arith) recovering e in
      let (c', e', s') =
        install_from-Runs recovering k (tail + 1) (r + 2) d (omega arith) t.valid t.below
          (omega arith) (Copied-Spare t s) in
      (c', rw e e', s')
