-- ===== src/Mkfs/Mount.antt =====
-- mkfs/mkfs.c and kernel/fs.c: the kernel mounts the image.
use riscvos.Common.{ℕ, ◌<◌, ◌≡◌, refl, true, false, some, [], arith}
use riscvos.Common.Outcome.{done}
use riscvos.Storage.Bio.{
  Block, boot, binit, down_from, bread, bget, hit, victim, fill, virtio_read, read_block, brelse,
  unlink,
}
use riscvos.Storage.Bytes.{get_word, put_word}
use riscvos.Storage.Log.{init_log, recover_from_log, read_head, load_blocks}
use riscvos.Storage.Log.Phase.{IsIdle}
use riscvos.FileSystem.{Fs, fsinit, readsb, ninode}
use riscvos.FileSystem.Inodes.{put_addrs}
use riscvos.FileSystem.Blocks.{is_used}
use riscvos.FileSystem.Content.{slice}
use riscvos.FileSystem.Directory.{dirent_inum}
use riscvos.Mkfs.{rinode, Builder, mkfs, layout, put_dinode}

-- A file system that is ready: the layout of the image, an idle log and no inode in use.
pub record IsReady (s : Fs) : Type 0 where
  pub sb : s.sb ≡ layout
  pub log : IsIdle s.store.log
  pub inodes : (i : ℕ) → i < ninode → (s.inode i).ref ≡ 0

-- The file system of a kernel that has started on a disk with this image.
abbrev pub started : (ℕ → Block) → Fs → Fs
started image t = record t { store = record t.store { cache = boot image [] } }

-- The root directory of an image: a directory of two entries, both of which name it.
pub record HasRoot (b : Builder) : Type 0 where
  pub kind : (rinode 1 b).kind ≡ 1
  pub nlink : (rinode 1 b).nlink ≡ 1
  pub size : (rinode 1 b).size ≡ 32
  pub entries :
      (dirent_inum (slice (b.image ((rinode 1 b).addrs 0)) 0 16) ≡ 1)
      × (dirent_inum (slice (b.image ((rinode 1 b).addrs 0)) 16 16) ≡ 1)
  pub used : is_used (b.image b.sb.bmapstart) ((rinode 1 b).addrs 0) ≡ true

-- `mkfs` succeeds. Its image has a root directory of two entries that name it, in a block that the bitmap counts as used; and a kernel in
-- which no transaction is open mounts the image: `fsinit` returns with the superblock that `mkfs` laid out, an
-- idle log and no inode in use.
pub mkfs-fsinit :
    (t : Fs)
    → t.store.log.outstanding ≡ 0
    → t.store.log.committing ≡ false
    → (b : Builder) × (mkfs ≡ some b)
      × HasRoot b
      × ((s : Fs) × (fsinit 0 (started b.image t) ≡ done s) × IsReady s)
unfolding mkfs put_dinode fsinit readsb bread bget hit victim fill virtio_read boot binit down_from
    brelse unlink init_log recover_from_log read_head load_blocks get_word put_word put_addrs
    read_block
mkfs-fsinit t h h' = (
  _,
  refl,
  record { kind = refl; nlink = refl; size = refl; entries = (refl, refl); used = refl },
  (
    _,
    refl,
    record {
      sb = refl;
      log = record {
        outstanding = h;
        committing = h';
        lock = refl;
        n = refl;
        room = (omega arith, omega arith);
      };
      inodes = λ i lt. ground arith;
    },
  ),
)
