-- ===== src/FileSystem/Blocks/Bitmap.antt =====
-- kernel/fs.c: the bits of the block bitmap.
use native.Mathlib.Decide.{ℕ_discrete}
use riscvos.Common.{
  ℕ, zero, suc, ◌+◌, ◌<◌, ◌≤◌, ◌≡◌, inl, inr, true, false, Option, none, some, arith, ltb,
  Bool-cases,
}
use riscvos.Storage.Bio.{Block}
use riscvos.FileSystem.Blocks.{is_used, free_bit}

-- What the search for a free bit finds: the first clear bit below the size.
pub data Found (d : Block) (size b i k : ℕ) : Option ℕ → Type 0 where
  nowhere :
      ((j : ℕ) → i ≤ j → j < i + k → b + j < size → is_used d j ≡ true) → Found d size b i k none
  first :
      (bi : ℕ)
      → bi < i + k
      → b + bi < size
      → is_used d bi ≡ false
      → ((j : ℕ) → i ≤ j → j < bi → is_used d j ≡ true)
      → Found d size b i k (some bi)

-- The inner loop of `balloc` finds the first clear bit that stands for a block of the disk, if there is one.
pub free_bit-Found : (d : Block) (size b k i : ℕ) → Found d size b i k (free_bit d size b k i)
unfolding free_bit
free_bit-Found d size b zero i = nowhere (λ j lo hi h. absurd (omega arith))
free_bit-Found d size b (suc k) i = elim (Bool-cases (ltb (b + i) size)) [
  | inr out ↦ rw out (nowhere (λ j lo hi h. absurd (ground arith)))
  | inl on ↦ elim (Bool-cases (is_used d i)) [
    | inr clear ↦
        rw (on, clear)
          (first i (omega arith) (ground arith) clear (λ j lo hi. absurd (omega arith)))
    | inl taken ↦
        rw (on, taken) (go (free_bit d size b k (i + 1)) taken (free_bit-Found d size b k (i + 1)))
  ]
]
  where
    go :
        (o : Option ℕ)
        → is_used d i ≡ true
        → Found d size b (i + 1) k o
        → Found d size b i (suc k) o
    go none u (nowhere f) = nowhere (λ j lo hi h. elim (ℕ_discrete i j) [
      | yes e ↦ ground arith
      | no ne ↦ f j (omega arith) (omega arith) h
    ])
    go (some bi) u (first _ lt on c f) =
        first bi (omega arith) on c
          (λ j lo hi. elim (ℕ_discrete i j) [ yes e ↦ ground arith | no ne ↦ f j (omega arith) hi ])
