-- ===== src/Storage/Bio/Invariant.antt =====
-- kernel/bio.c: the invariant of the block cache, and what a block reads as through it.
use riscvos.Common.{
  ℕ, ◌≡◌, refl, ◌≢◌, ◌⊎◌, inl, inr, true, false, none, some, List, arith, ==_refl, if◌then◌else◌,
  update, Option-cases,
}
use native.Mathlib.Decide.{ℕ_discrete}
use riscvos.Common.Outcome.{done}
use riscvos.Common.Word.{inc32}
use riscvos.Storage.Bio.{Block, Buf, Bcache, read_block, disk_block, hit, victim, bget}
use riscvos.Storage.Bio.Lookup.{hit-matches, hit-update_key, hit-update_ne, hit-recycle}

-- One device, at most one buffer for a block, and a clean buffer holds what the disk holds. Block 0
-- is set apart: before its first use every buffer carries that number.
pub record IsValid (dev : ℕ) (c : Bcache) : Type 0 where
  pub one_dev : (p : ℕ) → (c.buf p).dev ≡ dev
  pub found : (p : ℕ) → (c.buf p).blockno ≢ 0 → hit dev (c.buf p).blockno c.buf c.lru ≡ some p
  pub coherent :
      (p : ℕ)
      → (c.buf p).valid ≡ true
      → (c.buf p).disk ≡ false
      → (c.buf p).bytes ≡ disk_block c (c.buf p).blockno

-- What a reader of the buffer gets, once `fill` has run.
abbrev pub shown : Bcache → ℕ → ℕ → Block
shown c n p = if (c.buf p).valid then (c.buf p).bytes else disk_block c n

-- The contents of block `n` as the kernel sees it: the cached copy, or the disk.
unfoldable pub view : ℕ → Bcache → ℕ → Block
view dev c n = elim (hit dev n c.buf c.lru) [ some p ↦ shown c n p | none ↦ disk_block c n ]

module _ {dev : ℕ} {c : Bcache} (v : IsValid dev c) where
  pub view-buffer : (p n : ℕ) → (c.buf p).blockno ≡ n → n ≢ 0 → view dev c n ≡ shown c n p
  unfolding view
  view-buffer p n e h = ground (arith, v.found p)

  -- Whether some buffer caches the block.
  pub view_cases :
      (n : ℕ)
      → ((p : ℕ) × ((c.buf p).blockno ≡ n)
          × (hit dev n c.buf c.lru ≡ some p)
          × (view dev c n ≡ shown c n p))
        ⊎ ((hit dev n c.buf c.lru ≡ none) × (view dev c n ≡ disk_block c n))
  unfolding view
  view_cases n = elim (Option-cases (hit dev n c.buf c.lru)) [
    | inl e ↦ inr (e, ground arith)
    | inr (p, e) ↦ inl (p, ground (arith, hit-matches dev n c.buf c.lru p e), e, ground arith)
  ]

-- The two ways in which `bget` returns.
abbrev pub with_ref : Bcache → ℕ → Bcache
with_ref c p = record c {
  buf = update c.buf p (record (c.buf p) { refcnt = inc32 (c.buf p).refcnt });
}

abbrev pub recycled : ℕ → ℕ → Bcache → ℕ → Bcache
recycled dev n c p = record c {
  buf = update c.buf p (record (c.buf p) { dev = dev; blockno = n; valid = false; refcnt = 1 });
}

pub bget_cases :
    (dev n : ℕ) (c c' : Bcache) (p : ℕ)
    → bget dev n c ≡ done (p, c')
    → ((hit dev n c.buf c.lru ≡ some p) × (c' ≡ with_ref c p))
      ⊎ ((hit dev n c.buf c.lru ≡ none) × (victim c.buf c.lru ≡ some p) × (c' ≡ recycled dev n c p))
unfolding bget
bget_cases dev n c c' p h = ground arith

module _ {dev : ℕ} {c : Bcache} (v : IsValid dev c) where
  pub with_ref-IsValid : (p : ℕ) → IsValid dev (with_ref c p)
  with_ref-IsValid p = record {
    one_dev = λ q. ground (arith, v.one_dev q, v.one_dev p);
    found = λ q h. ground (
      arith,
      v.found q,
      hit-update_key dev (c.buf q).blockno c.buf p
          (record (c.buf p) { refcnt = inc32 (c.buf p).refcnt }) c.lru refl refl,
    );
    coherent = λ q. ground (arith, v.coherent q, v.coherent p);
  }

  pub recycled-IsValid :
      (n p : ℕ)
      → hit dev n c.buf c.lru ≡ none
      → victim c.buf c.lru ≡ some p
      → IsValid dev (recycled dev n c p)
  recycled-IsValid n p miss free = record {
    one_dev = λ q. ground (arith, v.one_dev q);
    found = λ q h. elim (ℕ_discrete p q) [
      | yes e ↦ ground (arith, hit-recycle dev n c.buf p new c.lru, ==_refl dev, ==_refl n)
      | no e ↦
          ground
            (arith, v.found q, hit-update_ne dev (c.buf q).blockno c.buf p new c.lru q, ==_refl dev)
    ];
    coherent = λ q. ground (arith, v.coherent q);
  }
    where
      new : Buf
      new = record (c.buf p) { dev = dev; blockno = n; valid = false; refcnt = 1 }

  -- Replacing a buffer's contents, not its key, along with a write to the disk.
  pub replace-IsValid :
      (q : ℕ) (b : Buf) (w : List (ℕ × Block))
      → b.dev ≡ dev
      → b.blockno ≡ (c.buf q).blockno
      → (b.valid ≡ true → b.disk ≡ false → b.bytes ≡ read_block c.image w b.blockno)
      → ((p : ℕ)
          → q ≢ p
          → (c.buf p).valid ≡ true
          → (c.buf p).disk ≡ false
          → (c.buf p).bytes ≡ read_block c.image w (c.buf p).blockno)
      → IsValid dev (record c { buf = update c.buf q b; written = w })
  replace-IsValid q b w hd hk new old = record {
    one_dev = λ p. ground (arith, v.one_dev p);
    found = λ p h.
        ground
          (arith, v.found p, v.one_dev q, hit-update_key dev (c.buf p).blockno c.buf q b c.lru);
    coherent = λ p. ground (arith, old p);
  }

-- With no buffer loaded, the kernel sees the disk.
pub view-not_loaded :
    (dev : ℕ) (c : Bcache) (n : ℕ)
    → ((p : ℕ) → (c.buf p).valid ≡ false)
    → view dev c n ≡ disk_block c n
unfolding view
view-not_loaded dev c n h = elim (Option-cases (hit dev n c.buf c.lru)) [
  | inl e ↦ ground arith
  | inr (p, e) ↦ ground (arith, h p)
]
