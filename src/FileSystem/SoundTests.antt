-- ===== src/FileSystem/SoundTests.antt =====
-- Blocks, inodes and contents at a concrete file system that is sound.
use riscvos.Common.{
  ℕ, zero, suc, ◌/◌, ◌%◌, ◌^◌, ◌<◌, ◌≤◌, ◌≡◌, refl, ◌∙◌, ap, ap₂, arith, true, false, Option, some,
  none, List, [], ltb, ◌==◌, if◌then◌else◌, if_then, lt→ltb,
}
use riscvos.Common.Outcome.{Outcome, done, panic, hang, Ensures}
use riscvos.Storage.Bio.{
  Block, boot, read_block, binit, down_from, bread, bget, hit, victim, fill, virtio_read, brelse,
  unlink, set_bytes,
}
use riscvos.Storage.Bio.Boot.{boot-IsValid, view-boot}
use riscvos.Storage.Log.{log_write}
use riscvos.FileSystem.{Fs, Inode, bblock}
use riscvos.FileSystem.Edits.{IsSound, seen}
use riscvos.FileSystem.Blocks.{is_used, balloc, bfree}
use riscvos.FileSystem.Blocks.Alloc.{IsLaid, Allocated, balloc-Allocated}
use riscvos.FileSystem.Blocks.Free.{Restored, bfree-balloc}
use riscvos.FileSystem.Inodes.{iupdate}
use riscvos.FileSystem.Inodes.Update.{Fits}
use riscvos.FileSystem.Inodes.Reload.{Reloaded, iupdate-ilock}
use riscvos.FileSystem.Content.{bmap, patch, clamp, slice, readi, writei}
use riscvos.FileSystem.Content.Bytes.{byte_at}
use riscvos.FileSystem.Content.Files.{IsFile}
use riscvos.FileSystem.Content.RoundTrip.{size_after, Stored, readi-writei}

abbrev empty_file : Inode
empty_file = record {
  dev = 0;
  inum = 5;
  ref = 1;
  valid = true;
  kind = 2;
  major = 0;
  minor = 0;
  nlink = 1;
  size = 3;
  addrs = λ i. 0;
}

-- The first 64 blocks are used.
abbrev bitmap : Block
bitmap i = if ltb i 8 then 255 else 0

abbrev image : ℕ → Block
image n = if n == 45 then bitmap else (λ i. 0)

abbrev open_fs : Fs
open_fs = record {
  store = record {
    log = record {
      start = 2;
      size = 30;
      outstanding = 1;
      committing = false;
      dev = 0;
      n = 0;
      block = λ i. 0;
      lock = false;
    };
    cache = boot image [];
  };
  sb = record {
    magic = 0;
    size = 1000;
    nblocks = 0;
    ninodes = 200;
    nlog = 30;
    logstart = 2;
    inodestart = 32;
    bmapstart = 45;
  };
  inode = λ i. empty_file;
}

open_fs-IsSound : IsSound 0 open_fs
open_fs-IsSound = record {
  valid = boot-IsValid image [];
  log = record {
    outstanding = refl;
    committing = refl;
    lock = refl;
    n = omega arith;
    room = (omega arith, omega arith);
    distinct = λ i j hi hj e. absurd (omega (arith, hi));
  };
}

seen_open_fs : (n : ℕ) → seen 0 open_fs n ≡ image n
unfolding boot read_block
seen_open_fs n = view-boot image [] n

all_ones : (k : ℕ) → k < 8 → 255 / 2 ^ k % 2 ≡ 1
all_ones zero h = refl
all_ones (suc zero) h = refl
all_ones (suc (suc zero)) h = refl
all_ones (suc (suc (suc zero))) h = refl
all_ones (suc (suc (suc (suc zero)))) h = refl
all_ones (suc (suc (suc (suc (suc zero))))) h = refl
all_ones (suc (suc (suc (suc (suc (suc zero)))))) h = refl
all_ones (suc (suc (suc (suc (suc (suc (suc zero))))))) h = refl
all_ones (suc (suc (suc (suc (suc (suc (suc (suc k)))))))) h = absurd (omega (arith, h))

bitmap-used : (k : ℕ) → k < 64 → is_used bitmap k ≡ true
bitmap-used k h =
    ap (λ x. x / 2 ^ (k % 8) % 2 == 1)
      (if_then (ltb (k / 8) 8) 255 0 (lt→ltb (k / 8) 8 (omega arith)))
    ∙ ap (λ x. x == 1) (all_ones (k % 8) (omega arith))

first_block : (b : ℕ) → b < 1000 → bblock b open_fs.sb ≡ 45
first_block b h = omega arith

open_fs-IsLaid : IsLaid 0 64 open_fs
open_fs-IsLaid = record {
  size = omega arith;
  room = omega arith;
  bitmap_end = omega arith;
  bitmap = λ b h. (omega (arith, first_block b h), omega (arith, first_block b h));
  own = λ b h.
      ap₂ is_used (ap (seen 0 open_fs) (first_block b (omega arith)) ∙ seen_open_fs 45) (mod_eq b h)
      ∙ bitmap-used b h;
}
  where
    mod_eq : (b : ℕ) → b < 64 → b % 8192 ≡ b
    mod_eq b h = omega arith

open_fs-IsFile : IsFile 0 64 1 open_fs
open_fs-IsFile = record {
  laid = open_fs-IsLaid;
  on_dev = refl;
  at_home = (omega arith, omega arith);
  home_apart = λ b h e. omega (arith, first_block b h, e);
  below = λ n h nz. absurd (nz refl);
  behind = λ n h nz. absurd (nz refl);
  taken = λ n h nz. absurd (nz refl);
  apart = λ m n hm hn nz e. absurd (nz refl);
}

balloc-Allocated_example : Ensures (λ r. Allocated 0 open_fs r × (64 ≤ r.0)) (balloc 0 open_fs)
balloc-Allocated_example = balloc-Allocated open_fs open_fs-IsSound open_fs-IsLaid

bfree-balloc_example :
    Ensures (λ r. Ensures (Restored 0 r.0 open_fs) (bfree 0 r.0 r.1)) (balloc 0 open_fs)
bfree-balloc_example = bfree-balloc open_fs open_fs-IsSound open_fs-IsLaid

abbrev stale : Inode
stale = record empty_file { valid = false; nlink = 7; size = 0 }

empty_file-Fits : Fits empty_file
empty_file-Fits = record {
  kind = omega arith;
  major = omega arith;
  minor = omega arith;
  nlink = omega arith;
  size = omega arith;
  addrs = λ i h. omega arith;
}

iupdate-ilock_example : Ensures (Reloaded 0 1 2 stale open_fs) (iupdate 1 open_fs)
iupdate-ilock_example =
    iupdate-ilock 1 2 stale open_fs open_fs-IsSound refl (λ z. omega (arith, z)) empty_file-Fits
      refl refl refl

-- 1500 bytes from 2 on, into a file of three: `writei` allocates two blocks.
readi-writei_example :
    Ensures {A = Option ℕ × Fs}
      (λ w.
        (w.0 ≡ some 1500)
        × Stored 0 64 1 (λ k. k) 2 1500 open_fs w.1
        × Ensures {A = Option (List ℕ) × Fs}
            (λ r.
              r.0
              ≡ some (
                  slice
                    (patch (byte_at 0 1 open_fs) 2 1500 (λ k. k) 0)
                    1000
                    (clamp (size_after 3 1502) 1000 40)))
            (readi 1 1000 40 w.1))
      (writei 1 (λ k. k) 2 1500 open_fs)
readi-writei_example =
    readi-writei 1 (λ k. k) 2 1500 1000 40 open_fs open_fs-IsSound open_fs-IsFile (omega arith)
      (omega arith) (omega arith) (omega arith) (omega arith)

abbrev count_of : Outcome (Option ℕ × Fs) → Option ℕ
count_of (done r) = r.0
count_of (panic s) = none
count_of (hang s) = none

writei_runs : count_of (writei 1 (λ k. k) 2 3 open_fs) ≡ some 3
unfolding writei bread bget hit victim fill virtio_read boot binit down_from brelse unlink balloc
    iupdate log_write bmap set_bytes read_block
writei_runs = refl
