-- ===== src/Storage/Log/Disk.antt =====
-- kernel/log.c: what the disk holds after the writes of a commit, or after the first of them.
use native.Mathlib.Decide.{ℕ_discrete}
use riscvos.Common.{
  ℕ, zero, suc, ◌+◌, ◌<◌, ◌≤◌, ◌≡◌, refl, ◌≢◌, ◌∙◌, ◌⊎◌, Bool, false, ◌||◌, List, ◌∷◌, arith, ◌==◌,
  ==_refl, if◌then◌else◌,
}
use riscvos.Storage.Bio.{Block, read_block}
use riscvos.Storage.Log.{Log, slot}
use riscvos.Storage.Log.Trace.{IsPlaced, slot_eq, logged, installed}

-- Whether one of the entries `tail`, …, `tail + k - 1` is for block `m`.
abbrev pub has_entry : Log → ℕ → ℕ → ℕ → Bool
has_entry l m tail zero = false
has_entry l m tail (suc k) = l.block tail == m || has_entry l m (tail + 1) k

module _ (l : Log) (image : ℕ → Block) where
  -- A block outside the entries' slots is not touched by the preparation of the log.
  pub read-logged :
      (placed : IsPlaced l) (x : ℕ → Block) (m k tail : ℕ) (w : List (ℕ × Block))
      → tail + k ≤ l.n
      → (m ≤ l.start) ⊎ (l.start + l.size ≤ m)
      → read_block image (logged l x tail k w) m ≡ read_block image w m
  unfolding read_block
  read-logged placed x m zero tail w le out = refl
  read-logged placed x m (suc k) tail w le out =
      read-logged placed x m k (tail + 1) ((slot l tail, x tail) ∷ w) (omega arith) out
      ∙ ground (arith, slot_eq placed tail, placed.few)

  -- The slot of an entry holds its contents.
  pub read-logged-slot :
      (placed : IsPlaced l) (x : ℕ → Block) (i k tail : ℕ) (w : List (ℕ × Block))
      → tail + k ≤ l.n
      → i < tail + k
      → (i < tail → read_block image w (slot l i) ≡ x i)
      → read_block image (logged l x tail k w) (slot l i) ≡ x i
  unfolding read_block
  read-logged-slot placed x i zero tail w le hi old = old (omega arith)
  read-logged-slot placed x i (suc k) tail w le hi old =
      read-logged-slot placed x i k (tail + 1) ((slot l tail, x tail) ∷ w) (omega arith)
        (omega arith)
        (λ lt. elim (ℕ_discrete tail i) [
          | yes e ↦ rw (e, ==_refl (slot l i))
          | no ne ↦ ground (arith, slot_eq placed tail, slot_eq placed i, old)
        ])

  -- Installing entries sets their blocks, and no other.
  pub read-installed :
      (X : ℕ → Block) (m k tail : ℕ) (w : List (ℕ × Block))
      → read_block image (installed l (λ i. X (l.block i)) tail k w) m
        ≡ (if has_entry l m tail k then X m else read_block image w m)
  unfolding read_block
  read-installed X m zero tail w = refl
  read-installed X m (suc k) tail w =
      read-installed X m k (tail + 1) ((l.block tail, X (l.block tail)) ∷ w) ∙ ground arith

  -- A block that is no home block keeps its contents.
  pub has_entry_none :
      (m k tail : ℕ)
      → ((i : ℕ) → tail ≤ i → i < tail + k → l.block i ≢ m)
      → has_entry l m tail k ≡ false
  has_entry_none m zero tail h = refl
  has_entry_none m (suc k) tail h =
      ground
        (arith, h tail, has_entry_none m k (tail + 1) (λ i lo hi. h i (omega arith) (omega arith)))

  pub has_entry_mono :
      (m k j tail : ℕ) → j ≤ k → has_entry l m tail k ≡ false → has_entry l m tail j ≡ false
  has_entry_mono m k zero tail le h = refl
  has_entry_mono m zero (suc j) tail le h = elim le [ ]
  has_entry_mono m (suc k) (suc j) tail le h =
      ground (arith, has_entry_mono m k j (tail + 1) (omega arith))
