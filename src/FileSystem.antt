-- ===== src/FileSystem.antt =====
-- kernel/fs.c over the log: the state that the file system keeps, and its accesses to blocks.
mod Tests
mod SoundTests
pub mod Edits
pub mod Blocks
pub mod Inodes
pub mod Content
pub mod Directory
pub mod Path
pub mod File
pub mod Transactions
use riscvos.Common.{
  ℕ, ◌+◌, ◌*◌, ◌/◌, ◌%◌, ◌^◌, Bool, List, update, true, false, ltb, ◌==◌, if◌then◌else◌,
}
use riscvos.Common.Outcome.{Outcome, done, panic, ◌>>=◌}
use riscvos.Storage.Bio.{Block, Bcache, bread, brelse, set_bytes}
use riscvos.Storage.Log.{Store, log_write, init_log}
use riscvos.Storage.Bytes.{get_word}

pub record Superblock : Type 0 where
  pub magic : ℕ
  pub size : ℕ
  pub nblocks : ℕ
  pub ninodes : ℕ
  pub nlog : ℕ
  pub logstart : ℕ
  pub inodestart : ℕ
  pub bmapstart : ℕ

-- `type` is a keyword of this language: the field is `kind`.
pub record Inode : Type 0 where
  pub dev : ℕ
  pub inum : ℕ
  pub ref : ℕ
  pub valid : Bool
  pub kind : ℕ
  pub major : ℕ
  pub minor : ℕ
  pub nlink : ℕ
  pub size : ℕ
  pub addrs : ℕ → ℕ

-- An inode pointer is an index of `icache.inode`.
pub record Fs : Type 0 where
  pub store : Store
  pub sb : Superblock
  pub inode : ℕ → Inode

abbrev pub bsize : ℕ
bsize = 1024

abbrev pub bpb : ℕ
bpb = 8192

abbrev pub ndirect : ℕ
ndirect = 12

abbrev pub nindirect : ℕ
nindirect = 256

abbrev pub ninode : ℕ
ninode = 50

abbrev with_cache : Fs → Bcache → Fs
with_cache s c = record s { store = record s.store { cache = c } }

-- `bread`, `brelse` and `log_write` on the state of the file system.
abbrev pub get_block : ℕ → ℕ → Fs → Outcome (ℕ × Fs)
get_block dev n s = bread dev n s.store.cache >>= λ r. done (r.0, with_cache s r.1)

abbrev pub release : ℕ → Fs → Fs
release p s = with_cache s (brelse p s.store.cache)

abbrev pub log_buffer : ℕ → Fs → Outcome Fs
log_buffer p s = log_write p s.store >>= λ t. done (record s { store = t })

abbrev pub contents : ℕ → Fs → Block
contents p s = (s.store.cache.buf p).bytes

abbrev pub set_contents : ℕ → Block → Fs → Fs
set_contents p b s = with_cache s (set_bytes p b s.store.cache)

abbrev pub set_inode : ℕ → Inode → Fs → Fs
set_inode i ip s = record s { inode = update s.inode i ip }

-- `BBLOCK` and `IBLOCK`.
abbrev pub bblock : ℕ → Superblock → ℕ
bblock b sb = (b / bpb + sb.bmapstart) % 2 ^ 32

abbrev pub iblock : ℕ → Superblock → ℕ
iblock i sb = (i / 16 + sb.inodestart) % 2 ^ 32

unfoldable pub readsb : ℕ → Fs → Outcome Fs
readsb dev s = do
  bp ← get_block dev 1 s
  let d = contents bp.0 bp.1
  let sb : Superblock = record {
    magic = get_word d 0;
    size = get_word d 1;
    nblocks = get_word d 2;
    ninodes = get_word d 3;
    nlog = get_word d 4;
    logstart = get_word d 5;
    inodestart = get_word d 6;
    bmapstart = get_word d 7;
  }
  done (record (release bp.0 bp.1) { sb = sb })

abbrev fsmagic : ℕ
fsmagic = 270544960

unfoldable pub fsinit : ℕ → Fs → Outcome Fs
unfolding readsb
fsinit dev s = do
  t ← readsb dev s
  elim (t.sb.magic == fsmagic) [
    | false ↦ panic "invalid fs magic"
    | true ↦ (do
      st ← init_log dev t.sb.logstart t.sb.nlog t.store.log t.store.cache
      done (record t {
        store = st;
        inode =
            λ i. if ltb i ninode then record (t.inode i) { ref = 0; valid = false } else t.inode i;
      }))
  ]
