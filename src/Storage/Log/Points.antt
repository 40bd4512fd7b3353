-- ===== src/Storage/Log/Points.antt =====
-- kernel/log.c: what the disk holds at each point of a commit.
use riscvos.Common.{ℕ, ◌+◌, ◌<◌, ◌≤◌, ◌≡◌, ◌≢◌, ◌∙◌, ◌⊎◌, inl, false, List, arith, if◌then◌else◌}
use riscvos.Storage.Bio.{Block, read_block, disk_block}
use riscvos.Storage.Bio.Invariant.{view}
use riscvos.Storage.Bio.Write.{read_block-cons_self, read_block-cons_ne}
use riscvos.Storage.Log.{Log, Store, slot, header}
use riscvos.Storage.Log.Trace.{IsPlaced, slot_eq, logged, installed}
use riscvos.Storage.Log.Commit.{sealed, new_contents}
use riscvos.Storage.Log.Disk.{
  has_entry, read-logged, read-logged-slot, read-installed, has_entry_none, has_entry_mono,
}

-- A block of the file system proper: neither the boot block nor in the log area.
pub record IsHome (l : Log) (m : ℕ) : Type 0 where
  pub ne_zero : m ≢ 0
  pub outside : (m < l.start) ⊎ (l.start + l.size ≤ m)

-- The file system before a transaction, and after it.
abbrev pub before : Store → ℕ → Block
before s m = disk_block s.cache m

abbrev pub after : Store → ℕ → Block
after s m = if has_entry s.log m 0 s.log.n then view s.log.dev s.cache m else before s m

-- What the disk holds at each point of a commit.
module _ (s : Store) (placed : IsPlaced s.log) where
  abbrev pub old_header : Block
  old_header = view s.log.dev s.cache s.log.start

  abbrev pub disk_at : List (ℕ × Block) → ℕ → Block
  disk_at = read_block s.cache.image

  pub home-ne-start : {m : ℕ} → IsHome s.log m → m ≢ s.log.start
  home-ne-start h = omega (arith, h.outside, placed.few)

  pub prepared-home :
      (j m : ℕ)
      → j ≤ s.log.n
      → (m ≤ s.log.start) ⊎ (s.log.start + s.log.size ≤ m)
      → disk_at (logged s.log (new_contents s) 0 j s.cache.written) m ≡ before s m
  prepared-home j m le out =
      read-logged s.log s.cache.image placed (new_contents s) m j 0 s.cache.written (omega arith)
        out

  abbrev pub installing_at : ℕ → List (ℕ × Block)
  installing_at j =
      installed s.log (new_contents s) 0 j
        (sealed s.log old_header (new_contents s) s.cache.written)

  pub prepared-start :
      (j : ℕ)
      → j ≤ s.log.n
      → disk_at (logged s.log (new_contents s) 0 j s.cache.written) s.log.start
        ≡ before s s.log.start
  prepared-start j le = prepared-home j s.log.start le (inl (omega arith))

  sealed-home :
      (m : ℕ)
      → IsHome s.log m
      → disk_at (sealed s.log old_header (new_contents s) s.cache.written) m ≡ before s m
  sealed-home m h =
      read_block-cons_ne s.cache.image _ s.log.start m (header s.log old_header) (home-ne-start h)
      ∙ prepared-home s.log.n m (omega arith) (omega (arith, h.outside))

  -- A block of the log area is nobody's home.
  area-no_entry :
      (j m : ℕ)
      → j ≤ s.log.n
      → s.log.start ≤ m
      → m < s.log.start + s.log.size
      → has_entry s.log m 0 j ≡ false
  area-no_entry j m le lo hi =
      has_entry_none s.log s.cache.image m j 0
        (λ i _ lt. omega (arith, placed.home i (omega arith)))

  area-installing :
      (j m : ℕ)
      → j ≤ s.log.n
      → s.log.start ≤ m
      → m < s.log.start + s.log.size
      → disk_at (installing_at j) m
        ≡ disk_at (sealed s.log old_header (new_contents s) s.cache.written) m
  area-installing j m le lo hi =
      read-installed s.log s.cache.image (view s.log.dev s.cache) m j 0 _
      ∙ (rw (area-no_entry j m le lo hi))

  pub sealed-header :
      (j : ℕ) → j ≤ s.log.n → disk_at (installing_at j) s.log.start ≡ header s.log old_header
  sealed-header j le =
      area-installing j s.log.start le (omega arith) (omega (arith, placed.few))
      ∙ read_block-cons_self s.cache.image _ s.log.start (header s.log old_header)

  pub sealed-slot :
      (j i : ℕ)
      → j ≤ s.log.n
      → i < s.log.n
      → disk_at (installing_at j) (slot s.log i) ≡ new_contents s i
  sealed-slot j i le hi =
      let e : slot s.log i ≡ s.log.start + i + 1 = slot_eq placed i hi in
      area-installing j (slot s.log i) le (omega arith) (omega (arith, placed.few))
      ∙ read_block-cons_ne s.cache.image _ s.log.start (slot s.log i) (header s.log old_header)
          (omega arith)
      ∙ read-logged-slot s.log s.cache.image placed (new_contents s) i s.log.n 0 s.cache.written
          (omega arith) (omega arith) (λ lt. elim lt [ ])

  pub installing-home :
      (j m : ℕ)
      → j ≤ s.log.n
      → IsHome s.log m
      → disk_at (installed s.log (new_contents s) 0 s.log.n (installing_at j)) m ≡ after s m
  installing-home j m le h =
      read-installed s.log s.cache.image (view s.log.dev s.cache) m s.log.n 0 (installing_at j)
      ∙ ground (
        arith,
        read-installed s.log s.cache.image (view s.log.dev s.cache) m j 0
            (sealed s.log old_header (new_contents s) s.cache.written),
        has_entry_mono s.log s.cache.image m s.log.n j 0 le,
        sealed-home m h,
      )

  pub installed-home : (m : ℕ) → IsHome s.log m → disk_at (installing_at s.log.n) m ≡ after s m
  installed-home m h =
      read-installed s.log s.cache.image (view s.log.dev s.cache) m s.log.n 0 _
      ∙ ground (arith, sealed-home m h)
