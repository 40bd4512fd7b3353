-- ===== src/Storage/Log/Header.antt =====
-- kernel/log.c: the header block. What `write_head` stores, `read_head` loads.
use riscvos.Common.{ℕ, zero, suc, ◌+◌, ◌<◌, ◌≤◌, ◌^◌, ◌≡◌, refl, ◌∙◌, arith, update}
use native.Mathlib.Decide.{ℕ_discrete}
use riscvos.Common.Word.{rounds}
use riscvos.Storage.Bio.{Block}
use riscvos.Storage.Bytes.{get_word, put_word, get_word-put_word_self, get_word-put_word_ne}
use riscvos.Storage.Log.{Log, load_blocks, store_blocks, header}

-- Words below the first entry are left alone.
store_blocks_below :
    (f : ℕ → ℕ) (k i j : ℕ) (b : Block) → j ≤ i → get_word (store_blocks f i k b) j ≡ get_word b j
unfolding store_blocks
store_blocks_below f zero i j b h = refl
store_blocks_below f (suc k) i j b h =
    store_blocks_below f k (i + 1) j (put_word (i + 1) (f i) b) (omega arith)
    ∙ get_word-put_word_ne (i + 1) j (f i) b (omega arith)

store_blocks_word :
    (f : ℕ → ℕ) (k i j : ℕ) (b : Block)
    → i ≤ j
    → j < i + k
    → f j < 2 ^ 32
    → get_word (store_blocks f i k b) (j + 1) ≡ f j
unfolding store_blocks
store_blocks_word f zero i j b lo hi w = absurd (omega arith)
store_blocks_word f (suc k) i j b lo hi w = elim (ℕ_discrete i j) [
  | yes e ↦
      store_blocks_below f k (i + 1) (j + 1) (put_word (i + 1) (f i) b) (omega arith)
      ∙ rw e (get_word-put_word_self (j + 1) (f j) b w)
  | no ne ↦ store_blocks_word f k (i + 1) j (put_word (i + 1) (f i) b) (omega arith) (omega arith) w
]

load_blocks_out : (b : Block) (k i j : ℕ) (f : ℕ → ℕ) → j < i → load_blocks b i k f j ≡ f j
unfolding load_blocks
load_blocks_out b zero i j f h = refl
load_blocks_out b (suc k) i j f h =
    load_blocks_out b k (i + 1) j (update f i (get_word b (i + 1))) (omega arith) ∙ ground arith

load_blocks_word :
    (b : Block) (k i j : ℕ) (f : ℕ → ℕ)
    → i ≤ j
    → j < i + k
    → load_blocks b i k f j ≡ get_word b (j + 1)
unfolding load_blocks
load_blocks_word b zero i j f lo hi = absurd (omega arith)
load_blocks_word b (suc k) i j f lo hi = elim (ℕ_discrete i j) [
  | yes e ↦
      load_blocks_out b k (i + 1) j (update f i (get_word b (i + 1))) (omega arith) ∙ ground arith
  | no ne ↦
      load_blocks_word b k (i + 1) j (update f i (get_word b (i + 1))) (omega arith) (omega arith)
]

-- The count of a header block is the log's.
pub header-count : (l : Log) (b : Block) → l.n < 2 ^ 32 → get_word (header l b) 0 ≡ l.n
header-count l b h =
    store_blocks_below l.block (rounds l.n) 0 0 (put_word 0 l.n b) (omega arith)
    ∙ get_word-put_word_self 0 l.n b h

-- Every entry of the header block that `write_head` stores is read back by the loop of `read_head`,
-- if the entry is a 32-bit number.
pub header-entry :
    (l : Log) (b : Block) (f : ℕ → ℕ) (j : ℕ)
    → l.n < 2 ^ 31
    → j < l.n
    → l.block j < 2 ^ 32
    → load_blocks (header l b) 0 l.n f j ≡ l.block j
header-entry l b f j h lt w =
    load_blocks_word (header l b) l.n 0 j f (omega arith) (omega arith)
    ∙ store_blocks_word l.block (rounds l.n) 0 j (put_word 0 l.n b) (omega arith) (ground arith) w
