-- ===== src/FileSystem/Tests.antt =====
-- Paths, the bitmap and reading at concrete states.
use riscvos.Common.{
  arith, ℕ, ◌+◌, ◌^◌, ◌<◌, ◌≤◌, ◌≡◌, refl, ◌⊎◌, true, false, Option, none, some, List, [], ◌∷◌,
  length,
}
use riscvos.Common.Outcome.{done, ◌>>=◌}
use riscvos.Storage.Bio.{boot}
use riscvos.FileSystem.{Fs, Inode}
use riscvos.FileSystem.File.{Files, fd_inode, filedup, fileclose, fileclose-filedup}
use riscvos.FileSystem.Path.{skipelem}
use riscvos.FileSystem.Path.Element.{Skipped, skipelem-Skipped}
use riscvos.FileSystem.Blocks.{free_bit}
use riscvos.FileSystem.Blocks.Bitmap.{Found, free_bit-Found}
use riscvos.FileSystem.Content.{readi, readi_from, read_chunk, bmap, addr_slot}
use riscvos.FileSystem.Content.Reading.{readi-length}

-- "//bin/sh".
skipelem-Skipped_example :
    Skipped
      (47 ∷ 47 ∷ 98 ∷ 105 ∷ 110 ∷ 47 ∷ 115 ∷ 104 ∷ [])
      (skipelem (47 ∷ 47 ∷ 98 ∷ 105 ∷ 110 ∷ 47 ∷ 115 ∷ 104 ∷ []) (λ j. 0))
skipelem-Skipped_example =
    skipelem-Skipped (47 ∷ 47 ∷ 98 ∷ 105 ∷ 110 ∷ 47 ∷ 115 ∷ 104 ∷ []) (λ j. 0)

free_bit-Found_example : Found (λ j. 7) 100 0 0 8 (free_bit (λ j. 7) 100 0 8 0)
free_bit-Found_example = free_bit-Found (λ j. 7) 100 0 8 0

abbrev sparse : Inode
sparse = record {
  dev = 0;
  inum = 5;
  ref = 1;
  valid = true;
  kind = 2;
  major = 0;
  minor = 0;
  nlink = 1;
  size = 3;
  addrs = λ i. 0;
}

abbrev sample_fs : Fs
sample_fs = record {
  store = record {
    log = record {
      start = 2;
      size = 30;
      outstanding = 0;
      committing = false;
      dev = 0;
      n = 0;
      block = λ i. 0;
      lock = false;
    };
    cache = boot (λ n i. 0) [];
  };
  sb = record {
    magic = 0;
    size = 1000;
    nblocks = 0;
    ninodes = 200;
    nlog = 30;
    logstart = 2;
    inodestart = 32;
    bmapstart = 45;
  };
  inode = λ i. sparse;
}

abbrev two_zeroes : Option (List ℕ)
two_zeroes = some (0 ∷ 0 ∷ [])

readi-length_example :
    ((two_zeroes ≡ none) × ((3 < 1) ⊎ (2 ^ 32 ≤ 1 + 5)))
    ⊎ ((bs : List ℕ) × (two_zeroes ≡ some bs)
        × (1 ≤ 3)
        × (1 + 5 < 2 ^ 32)
        × (((1 + 5 ≤ 3) × (length bs ≡ 5)) ⊎ ((3 < 1 + 5) × (1 + length bs ≡ 3))))
unfolding readi readi_from read_chunk bmap addr_slot
readi-length_example =
    readi-length 0 1 5 sample_fs sample_fs two_zeroes (omega arith) (omega arith) (omega arith) refl

abbrev open_files : Files
open_files = record {
  file =
      λ i. record { kind = fd_inode; ref = 1; readable = true; writable = true; ip = 0; off = 0 };
  fs = sample_fs;
}

fileclose-filedup_example :
    (t : Files) × ((filedup 4 open_files >>= fileclose 4) ≡ done t)
    × ((j : ℕ) → t.file j ≡ open_files.file j)
    × (t.fs ≡ sample_fs)
fileclose-filedup_example = fileclose-filedup 4 open_files (omega arith) (omega arith)
