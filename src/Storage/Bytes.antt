-- ===== src/Storage/Bytes.antt =====
-- A block read as an array of `uint32_t`, little-endian, through a cast of `b->data`.
use riscvos.Common.{ℕ, ◌<◌, ◌≢◌, ◌≡◌, arith, ◌+◌, ◌*◌, ◌/◌, ◌%◌, ◌^◌, ◌==◌, if◌then◌else◌}
use riscvos.Storage.Bio.{Block}

unfoldable pub get_word : Block → ℕ → ℕ
get_word b i = b (4 * i) + 2 ^ 8 * b (4 * i + 1) + 2 ^ 16 * b (4 * i + 2) + 2 ^ 24 * b (4 * i + 3)

unfoldable pub put_word : ℕ → ℕ → Block → Block
put_word i w b j = if j / 4 == i then (w / 2 ^ (8 * (j % 4))) % 2 ^ 8 else b j

pub get_word-put_word_self : (i w : ℕ) (b : Block) → w < 2 ^ 32 → get_word (put_word i w b) i ≡ w
unfolding get_word put_word
get_word-put_word_self i w b h = ground arith

pub get_word-put_word_ne :
    (i j w : ℕ) (b : Block) → i ≢ j → get_word (put_word i w b) j ≡ get_word b j
unfolding get_word put_word
get_word-put_word_ne i j w b h = ground arith
