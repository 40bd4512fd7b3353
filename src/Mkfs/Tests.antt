-- ===== src/Mkfs/Tests.antt =====
-- A kernel that starts on the image.
use riscvos.Common.{◌≡◌, refl, false, some, []}
use riscvos.Common.Outcome.{done}
use riscvos.Storage.Bio.{boot}
use riscvos.FileSystem.{Fs, fsinit}
use riscvos.Mkfs.{Builder, mkfs, layout}
use riscvos.Mkfs.Mount.{HasRoot, IsReady, started, mkfs-fsinit}

-- The memory of a kernel that has not read a block yet.
abbrev blank : Fs
blank = record {
  store = record {
    log = record {
      start = 0;
      size = 0;
      outstanding = 0;
      committing = false;
      dev = 0;
      n = 0;
      block = λ i. 0;
      lock = false;
    };
    cache = boot (λ n i. 0) [];
  };
  sb = layout;
  inode = λ i. record {
    dev = 0;
    inum = 0;
    ref = 0;
    valid = false;
    kind = 0;
    major = 0;
    minor = 0;
    nlink = 0;
    size = 0;
    addrs = λ j. 0;
  };
}

mkfs-fsinit_example :
    (b : Builder) × (mkfs ≡ some b)
    × HasRoot b
    × ((s : Fs) × (fsinit 0 (started b.image blank) ≡ done s) × IsReady s)
mkfs-fsinit_example = mkfs-fsinit blank refl refl
