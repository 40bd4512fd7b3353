-- ===== src/FileSystem/Blocks.antt =====
-- kernel/fs.c: the bitmap of used blocks. A byte's bit is a digit of the byte in base 2.
pub mod Bitmap
pub mod Bits
pub mod Alloc
pub mod Free
use riscvos.Common.{
  ℕ, zero, suc, ◌+◌, ◌-◌, ◌*◌, ◌/◌, ◌%◌, ◌^◌, Bool, true, false, Option, none, some, ◌&&◌, ◌==◌,
  ltb, if◌then◌else◌, update,
}
use riscvos.Common.Outcome.{Outcome, done, panic, hang, ◌>>=◌}
use riscvos.Common.Word.{rounds}
use riscvos.Storage.Bio.{Block}
use riscvos.FileSystem.{Fs, bpb, bblock, get_block, release, log_buffer, contents, set_contents}

abbrev pub is_used : Block → ℕ → Bool
is_used d bi = (d (bi / 8) / 2 ^ (bi % 8)) % 2 == 1

-- Setting a bit that is clear, and clearing a bit that is set.
abbrev pub mark : Block → ℕ → Block
mark d bi = update d (bi / 8) (d (bi / 8) + 2 ^ (bi % 8))

abbrev pub unmark : Block → ℕ → Block
unmark d bi = update d (bi / 8) (d (bi / 8) - 2 ^ (bi % 8))

-- The inner loop of `balloc`, from bit `bi` with `k` bits of the block left.
unfoldable pub free_bit : Block → ℕ → ℕ → ℕ → ℕ → Option ℕ
free_bit d size b zero bi = none
free_bit d size b (suc k) bi =
    let rest = free_bit d size b k (bi + 1) in
    if ltb (b + bi) size then (if is_used d bi then rest else some bi) else none

-- What happens once a free bit is found: the block is marked, logged and zeroed.
unfoldable pub take_block : ℕ → ℕ → ℕ → ℕ → Fs → Outcome (ℕ × Fs)
take_block dev b bi p s = do
  t ← log_buffer p (set_contents p (mark (contents p s) bi) s)
  bp ← get_block dev (b + bi) (release p t)
  u ← log_buffer bp.0 (set_contents bp.0 (λ i. 0) bp.1)
  done (b + bi, release bp.0 u)

unfoldable pub balloc_from : ℕ → ℕ → ℕ → Fs → Outcome (ℕ × Fs)
unfolding free_bit take_block
balloc_from zero dev b s = hang "balloc"
balloc_from (suc k) dev b s = elim (ltb b (rounds s.sb.size)) [
  | false ↦ panic "balloc: out of blocks"
  | true ↦ get_block dev (bblock b s.sb) s >>= λ bp.
      elim (free_bit (contents bp.0 bp.1) (rounds s.sb.size) b bpb 0) [
        | some bi ↦ take_block dev b bi bp.0 bp.1
        | none ↦ balloc_from k dev (b + bpb) (release bp.0 bp.1)
      ]
]

-- The fuel is the number of bitmap blocks and one for the end; a loop that has used it up does not end.
unfoldable pub balloc : ℕ → Fs → Outcome (ℕ × Fs)
unfolding balloc_from
balloc dev s = balloc_from (rounds s.sb.size / bpb + 2) dev 0 s

unfoldable pub bfree : ℕ → ℕ → Fs → Outcome Fs
bfree dev b s = do
  bp ← get_block dev (bblock b s.sb) s
  elim (is_used (contents bp.0 bp.1) (b % bpb)) [
    | false ↦ panic "freeing free block"
    | true ↦
        log_buffer bp.0 (set_contents bp.0 (unmark (contents bp.0 bp.1) (b % bpb)) bp.1) >>= λ t.
        done (release bp.0 t)
  ]
