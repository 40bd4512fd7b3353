-- ===== src/Storage/Tests.antt =====
-- The theorems about the block cache and the log at concrete states.
use riscvos.Common.{ℕ, ◌≡◌, refl, true, false, List, [], ◌∷◌, arith, if◌then◌else◌, ◌==◌, drop}
use riscvos.Common.Outcome.{Outcome, done, hang}
use riscvos.Storage.Bio.{
  Block, Buf, Bcache, boot, hit, victim, bget, fill, bread, brelse, read_block, disk_block,
}
use riscvos.Storage.Bio.Write.{write_through}
use riscvos.Storage.Bio.Invariant.{IsValid}
use riscvos.Storage.Bio.Lookup.{listed}
use riscvos.Storage.Bio.Ops.{Below}
use riscvos.Storage.Bio.Progress.{Spare}
use riscvos.Storage.Bytes.{get_word}
use riscvos.Storage.Log.{
  Log, Store, commit, commit_entries, write_log, write_log_from, log_entry, install_trans,
  install_from, install_entry, write_head, load_blocks, recover_from_log, header, begin_op, end_op,
  log_write,
}
use riscvos.Storage.Log.Trace.{IsPlaced}
use riscvos.Storage.Log.Commit.{cleared}
use riscvos.Storage.Log.Points.{IsHome, after}
use riscvos.Storage.Log.Crash.{AllOrNothing}
use riscvos.Storage.Log.Cut.{here, later}
use riscvos.Storage.Log.Total.{commit_total}
use riscvos.Storage.Log.Restart.{crash_recovers}
use riscvos.Storage.Log.Ops.{begin_op_deadlock, begin_op-Begun, Begun, log_write-Logged, Logged}
use riscvos.Storage.Log.Header.{header-entry}
use riscvos.Storage.Bio.Write.{Written, Released, write_through-Written, brelse-Released}
use riscvos.Storage.Bio.Ops.{Held, Read, bread-Read}
use riscvos.Storage.Bio.Progress.{bread-total}

abbrev zeroes : Block
zeroes i = 0

abbrev empty_buf : Buf
empty_buf = record { valid = false; disk = false; dev = 0; blockno = 0; refcnt = 0; bytes = zeroes }

-- Block 100 has been overwritten with sevens in the cache, and stands in the log.
abbrev dirty_buf : Buf
dirty_buf = record { valid = true; disk = true; dev = 0; blockno = 100; refcnt = 0; bytes = λ i. 7 }

abbrev sample_cache : Bcache
sample_cache = record {
  buf = λ p. if p == 2 then dirty_buf else empty_buf;
  lru = 2 ∷ 1 ∷ 0 ∷ [];
  image = λ n. zeroes;
  written = [];
}

abbrev sample_log : Log
sample_log = record {
  start = 2;
  size = 30;
  outstanding = 0;
  committing = true;
  dev = 0;
  n = 1;
  block = λ i. if i == 0 then 100 else 0;
  lock = false;
}

abbrev sample : Store
sample = record { log = sample_log; cache = sample_cache }

sample-IsPlaced : IsPlaced sample_log
sample-IsPlaced = record {
  after_boot = omega arith;
  fits = omega arith;
  few = omega arith;
  home = λ i h. ground arith;
  home_ne_zero = λ i h. ground arith;
}

sample-IsValid : IsValid 0 sample_cache
unfolding hit
sample-IsValid = record {
  one_dev = λ p. ground arith;
  found = λ p h. ground arith;
  coherent = λ p v d. ground arith;
}

sample-Below : Below 0 sample_cache
sample-Below p = ground arith

sample-Spare : Spare sample_cache 0 1
unfolding listed
sample-Spare = record {
  apart = omega arith;
  first = record { on_list = refl; unused = refl; clean = refl };
  second = record { on_list = refl; unused = refl; clean = refl };
}

commit_total_example :
    (s' : Store) × (commit sample ≡ done s')
    × ((m : ℕ) → IsHome sample_log m → disk_block s'.cache m ≡ after sample m)
    × (s'.log ≡ cleared sample_log)
    × IsValid 0 s'.cache
    × Spare s'.cache 0 1
commit_total_example =
    commit_total sample 0 0 1 sample-IsPlaced sample-IsValid sample-Below (omega arith) sample-Spare
      (omega arith)

unwrap : Outcome Store → Store
unwrap (done s) = s
unwrap _ = sample

abbrev committed_sample : Store
committed_sample = unwrap (commit sample)

commit-sample : commit sample ≡ done committed_sample
unfolding commit commit_entries write_log write_log_from log_entry bread bget hit victim fill brelse
    write_through write_head install_trans install_from install_entry unwrap
commit-sample = refl

-- The power fails when the header has been written and nothing is installed yet.
abbrev at_crash : List (ℕ × Block)
at_crash = drop 2 committed_sample.cache.written

crash_recovers_example :
    (s'' : Store) × (recover_from_log (cleared sample_log) (boot (λ n. zeroes) at_crash) ≡ done s'')
    × AllOrNothing sample s''
unfolding commit commit_entries write_log write_log_from log_entry bread bget hit victim fill brelse
    write_through write_head install_trans install_from install_entry unwrap get_word read_block
crash_recovers_example =
    crash_recovers sample committed_sample (cleared sample_log) at_crash 0 sample-IsPlaced
      (record { start = refl; size = refl; dev = refl }) refl (omega arith) (omega arith)
      (λ i h. ground arith) sample-IsValid sample-Below refl commit-sample (later (later here))
      (later (later here))

abbrev full_log : Log
full_log = record sample_log { outstanding = 4; committing = false }

begin_op_deadlock_example :
    (begin_op (record full_log { lock = true }) ≡ hang "acquire_log")
    × ((c : Bcache)
        → end_op (record { log = record full_log { lock = true }; cache = c }) ≡ hang "acquire_log")
    × ((p : ℕ) (c : Bcache)
        → log_write p (record { log = record full_log { lock = true }; cache = c })
          ≡ hang "acquire_log")
unfolding begin_op
begin_op_deadlock_example = begin_op_deadlock full_log (record full_log { lock = true }) refl

abbrev open_log : Log
open_log = record sample_log { outstanding = 1; committing = false }

begin_op-Begun_example : Begun open_log (begin_op open_log)
begin_op-Begun_example = begin_op-Begun open_log (omega arith) (omega arith) (omega arith)

log_write-Logged_example :
    Logged 1
      (record { log = open_log; cache = sample_cache })
      (log_write 1 (record { log = open_log; cache = sample_cache }))
log_write-Logged_example =
    log_write-Logged 1 (record { log = open_log; cache = sample_cache }) (omega arith) (omega arith)
      (omega arith) (omega arith)

header-entry_example : load_blocks (header sample_log zeroes) 0 1 zeroes 0 ≡ 100
header-entry_example =
    header-entry sample_log zeroes zeroes 0 (omega arith) (omega arith) (omega arith)

abbrev held_cache : Bcache
held_cache = record sample_cache {
  buf = λ p. if p == 2 then record dirty_buf { refcnt = 1 } else empty_buf;
}

held_cache-IsValid : IsValid 0 held_cache
unfolding hit
held_cache-IsValid = record {
  one_dev = λ p. ground arith;
  found = λ p h. ground arith;
  coherent = λ p v d. ground arith;
}

held_cache-Held : Held held_cache 2 100
held_cache-Held = record { key = refl; loaded = refl; in_use = omega arith }

write_through-Written_example : Written 0 100 zeroes held_cache (write_through 2 zeroes held_cache)
write_through-Written_example =
    write_through-Written held_cache-IsValid 2 100 (omega arith) held_cache-Held zeroes

brelse-Released_example : Released 0 2 held_cache (brelse 2 held_cache)
brelse-Released_example = brelse-Released held_cache-IsValid 2

bread-total_example : (r : ℕ × Bcache) × (bread 0 7 sample_cache ≡ done r)
unfolding listed
bread-total_example =
    bread-total 0 7 sample_cache {a = 0} (record { on_list = refl; unused = refl; clean = refl })

abbrev read_cache : Bcache
read_cache = record sample_cache {
  buf = λ p.
      if 2 == p then record dirty_buf { refcnt = 1 } else (if p == 2 then dirty_buf else empty_buf);
}

bread-Read_example : Read 0 100 sample_cache 2 read_cache
unfolding bread bget hit fill
bread-Read_example = bread-Read sample-IsValid (omega arith) refl
