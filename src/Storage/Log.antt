-- ===== src/Storage/Log.antt =====
-- kernel/log.c: the write-ahead log. `int` fields are 32-bit patterns; the array `lh.block` is a
-- function of the index, which the guards of `log_write` keep below `log.size`: with a log of at most 31 blocks, as in the
-- image of mkfs, every index that is read or written is below 30, so inside the array of LOGSIZE entries and the block of
-- 1024 bytes. A larger log, where C writes past the array, is not described.
pub mod Copy
pub mod Trace
pub mod Commit
pub mod Header
pub mod Recover
pub mod Disk
pub mod Cut
pub mod Points
pub mod Crash
pub mod Progress
pub mod Total
pub mod Restart
pub mod Ops
pub mod Phase
use riscvos.Common.{ℕ, zero, suc, ◌+◌, Bool, true, false, ◌||◌, ◌==◌, if◌then◌else◌, update, not}
use riscvos.Common.Outcome.{Outcome, done, panic, hang, ◌>>=◌}
use riscvos.Common.Word.{inc32, dec32, add32, mul32, sub32, slt, rounds}
use riscvos.Storage.Bio.{Block, Bcache, bread, brelse}
use riscvos.Storage.Bio.Write.{write_through}
use riscvos.Storage.Bytes.{get_word, put_word}

pub record Log : Type 0 where
  pub start : ℕ
  pub size : ℕ
  pub outstanding : ℕ
  pub committing : Bool
  pub dev : ℕ
  pub n : ℕ
  pub block : ℕ → ℕ
  pub lock : Bool

pub record Store : Type 0 where
  pub log : Log
  pub cache : Bcache

-- The busy wait ends at once or never: nothing else runs on this CPU in the meantime.
unfoldable pub acquire_log : Log → Outcome Log
acquire_log l = if l.lock then hang "acquire_log" else done (record l { lock = true })

unfoldable pub release_log : Log → Log
release_log l = record l { lock = false }

-- The block of the log that holds entry `tail`.
abbrev pub slot : Log → ℕ → ℕ
slot l tail = add32 (add32 l.start tail) 1

-- `dbuf->disk = 0` unless recovering.
unfoldable pub mark_clean : Bool → ℕ → Bcache → Bcache
mark_clean recovering p c =
    if recovering then c else record c { buf = update c.buf p (record (c.buf p) { disk = false }) }

-- One round of `install_trans`.
unfoldable pub install_entry : Bool → Log → ℕ → Bcache → Outcome Bcache
unfolding mark_clean
install_entry recovering l tail c = do
  lbuf ← bread l.dev (slot l tail) c
  dbuf ← bread l.dev (l.block tail) lbuf.1
  let c' = write_through dbuf.0 (dbuf.1.buf lbuf.0).bytes dbuf.1
  done (brelse dbuf.0 (brelse lbuf.0 (mark_clean recovering dbuf.0 c')))

unfoldable pub install_from : Bool → Log → ℕ → ℕ → Bcache → Outcome Bcache
install_from recovering l tail zero c = done c
install_from recovering l tail (suc k) c = do
  c' ← install_entry recovering l tail c
  install_from recovering l (tail + 1) k c'

unfoldable pub install_trans : Bool → Log → Bcache → Outcome Bcache
install_trans recovering l c = install_from recovering l 0 (rounds l.n) c

-- The loops over `lh->block` of `read_head` and `write_head`: word 0 of the header is `n`.
unfoldable pub load_blocks : Block → ℕ → ℕ → (ℕ → ℕ) → ℕ → ℕ
load_blocks b i zero f = f
load_blocks b i (suc k) f = load_blocks b (i + 1) k (update f i (get_word b (i + 1)))

unfoldable pub store_blocks : (ℕ → ℕ) → ℕ → ℕ → Block → Block
store_blocks f i zero b = b
store_blocks f i (suc k) b = store_blocks f (i + 1) k (put_word (i + 1) (f i) b)

abbrev pub header : Log → Block → Block
header l b = store_blocks l.block 0 (rounds l.n) (put_word 0 l.n b)

unfoldable pub read_head : Log → Bcache → Outcome (Log × Bcache)
read_head l c = do
  buf ← bread l.dev l.start c
  let lh = (buf.1.buf buf.0).bytes
  let n = get_word lh 0
  done (record l { n = n; block = load_blocks lh 0 (rounds n) l.block }, brelse buf.0 buf.1)

unfoldable pub write_head : Log → Bcache → Outcome Bcache
write_head l c = do
  buf ← bread l.dev l.start c
  done (brelse buf.0 (write_through buf.0 (header l (buf.1.buf buf.0).bytes) buf.1))

-- The body of `recover_from_log`, once the header is read.
unfoldable pub recover_entries : Log → Bcache → Outcome Store
unfolding write_head install_trans
recover_entries l c = do
  c₁ ← install_trans true l c
  c₂ ← write_head (record l { n = 0 }) c₁
  done (record { log = record l { n = 0 }; cache = c₂ })

unfoldable pub recover_from_log : Log → Bcache → Outcome Store
recover_from_log l c = do
  head ← read_head l c
  if slt 0 head.0.n
      then recover_entries head.0 head.1
      else done (record { log = head.0; cache = head.1 })

-- One round of `write_log`.
unfoldable pub log_entry : Log → ℕ → Bcache → Outcome Bcache
log_entry l tail c = do
  to ← bread l.dev (slot l tail) c
  from ← bread l.dev (l.block tail) to.1
  let c' = write_through to.0 (from.1.buf from.0).bytes from.1
  done (brelse to.0 (brelse from.0 c'))

unfoldable pub write_log_from : Log → ℕ → ℕ → Bcache → Outcome Bcache
write_log_from l tail zero c = done c
write_log_from l tail (suc k) c = do c' ← log_entry l tail c; write_log_from l (tail + 1) k c'

unfoldable pub write_log : Log → Bcache → Outcome Bcache
write_log l c = write_log_from l 0 (rounds l.n) c

-- The body of `commit`.
unfoldable pub commit_entries : Store → Outcome Store
unfolding write_log write_head install_trans
commit_entries s = do
  c₁ ← write_log s.log s.cache
  c₂ ← write_head s.log c₁
  c₃ ← install_trans false s.log c₂
  c₄ ← write_head (record s.log { n = 0 }) c₃
  done (record { log = record s.log { n = 0 }; cache = c₄ })

unfoldable pub commit : Store → Outcome Store
unfolding commit_entries
commit s = if slt 0 s.log.n then commit_entries s else done s

-- `init_log` on a log whose other fields are as the boot left them.
unfoldable pub init_log : ℕ → ℕ → ℕ → Log → Bcache → Outcome Store
unfolding recover_from_log
init_log dev logstart nlog l c =
    recover_from_log (record l { start = logstart; size = nlog; dev = dev; lock = false }) c

-- One pass of the loop of `begin_op`: the process enters its transaction, or sleeps on the log.
pub data Begin : Type 0 where
  entered : Log → Begin
  sleeping : Log → Begin

abbrev pub log_full : Log → Bool
log_full l = slt (sub32 l.size 5) (add32 l.n (mul32 (inc32 l.outstanding) 5))

-- `sleep(&log, &log.lock)` gives up the CPU and leaves `log.lock` as it is.
unfoldable pub begin_try : Log → Begin
unfolding release_log
begin_try l =
    if l.committing || log_full l
    then sleeping l
    else entered (release_log (record l { outstanding = inc32 l.outstanding }))

unfoldable pub begin_op : Log → Outcome Begin
unfolding begin_try acquire_log
begin_op l = do l' ← acquire_log l; done (begin_try l')

-- The part of `end_op` after the commit.
unfoldable pub end_commit : Store → Outcome Store
unfolding acquire_log release_log
end_commit s = do
  l ← acquire_log s.log
  done (record s { log = release_log (record l { committing = false }) })

unfoldable pub end_op : Store → Outcome Store
unfolding acquire_log release_log commit end_commit
end_op s = do
  l ← acquire_log s.log
  let l₁ = record l { outstanding = dec32 l.outstanding }
  if l₁.committing
      then panic "log: committing"
      else (if l₁.outstanding == 0
          then (do
            s' ← commit (record s { log = release_log (record l₁ { committing = true }) })
            end_commit s')
          else done (record s { log = release_log l₁ }))

-- The search of `log_write`: the index of the block in the header, or the number of entries.
unfoldable pub find_entry : (ℕ → ℕ) → ℕ → ℕ → ℕ → ℕ
find_entry f b i zero = i
find_entry f b i (suc k) = if f i == b then i else find_entry f b (i + 1) k

-- Entering a block number in the header.
unfoldable pub log_block : Log → ℕ → Log
unfolding find_entry
log_block l b =
    let i = find_entry l.block b 0 (rounds l.n) in
    if i == l.n then record l { block = update l.block i b; n = inc32 l.n } else l

unfoldable pub log_write : ℕ → Store → Outcome Store
unfolding acquire_log release_log log_block
log_write p s = do
  l ← acquire_log s.log
  let c = s.cache
  if not (slt l.n (sub32 l.size 1))
      then panic "log: too big"
      else (if slt l.outstanding 1
          then panic "log: outside of trans"
          else done (record {
            log = release_log (log_block l (c.buf p).blockno);
            cache = record c { buf = update c.buf p (record (c.buf p) { disk = true }) };
          }))
