-- ===== src/Mkfs.antt =====
-- mkfs/mkfs.c: the host program that writes the first image of the file system.
--
-- The image file is its blocks by number; opening, seeking, reading and writing it succeed. `exit(1)` is `none`.
mod Tests
pub mod Mount
use riscvos.Common.{
  ℕ, zero, suc, ◌+◌, ◌-◌, ◌*◌, ◌/◌, ◌%◌, ◌^◌, Bool, true, false, Option, none, some, List, [], ◌∷◌,
  get_or, ◌==◌, ◌&&◌, ltb, leb, if◌then◌else◌, update,
}
use riscvos.Storage.Bio.{Block}
use riscvos.Storage.Bytes.{get_word, put_word}
use riscvos.FileSystem.{Superblock}
use riscvos.FileSystem.Inodes.{get_half, put_half, put_addrs}

-- `struct dinode` of the host program.
pub record Dinode : Type 0 where
  pub kind : ℕ
  pub major : ℕ
  pub minor : ℕ
  pub nlink : ℕ
  pub size : ℕ
  pub addrs : ℕ → ℕ

-- The image file and the global variables.
pub record Builder : Type 0 where
  pub image : ℕ → Block
  pub sb : Superblock
  pub freeinode : ℕ
  pub freeblock : ℕ
  pub bitmap : ℕ → ℕ

abbrev pub fssize : ℕ
fssize = 1000

abbrev pub wsect : ℕ → Block → Builder → Builder
wsect sec b s = record s { image = update s.image sec b }

abbrev pub inode_block : ℕ → Builder → ℕ
inode_block inum s = inum / 16 + s.sb.inodestart

-- The copy of a whole `struct dinode` to byte `o` of a block, and from there.
unfoldable pub put_dinode : ℕ → Dinode → Block → Block
put_dinode o din b = put_addrs din.addrs o 13 0 (
    put_word (o / 4 + 2) din.size (
      put_half (o + 6) din.nlink
        (put_half (o + 4) din.minor (put_half (o + 2) din.major (put_half o din.kind b)))))

abbrev pub get_dinode : ℕ → Block → Dinode
get_dinode o b = record {
  kind = get_half b o;
  major = get_half b (o + 2);
  minor = get_half b (o + 4);
  nlink = get_half b (o + 6);
  size = get_word b (o / 4 + 2);
  addrs = λ i. get_word b (o / 4 + 3 + i);
}

unfoldable pub winode : ℕ → Dinode → Builder → Builder
unfolding put_dinode
winode inum din s =
    wsect (inode_block inum s) (put_dinode (inum % 16 * 64) din (s.image (inode_block inum s))) s

abbrev pub rinode : ℕ → Builder → Dinode
rinode inum s = get_dinode (inum % 16 * 64) (s.image (inode_block inum s))

unfoldable pub ialloc : ℕ → Builder → ℕ × Builder
unfolding winode
ialloc kind s =
    let din : Dinode = record {
      kind = kind;
      major = 0;
      minor = 0;
      nlink = 1;
      size = 0;
      addrs = λ i. 0;
    } in
    (s.freeinode, winode s.freeinode din (record s { freeinode = s.freeinode + 1 }))

unfoldable pub balloc_mark : ℕ → (ℕ → ℕ) → ℕ → ℕ
balloc_mark b f =
    if f (b / 8) / 2 ^ (b % 8) % 2 == 1 then f else update f (b / 8) (f (b / 8) + 2 ^ (b % 8))

unfoldable pub balloc : Builder → ℕ × Builder
unfolding balloc_mark
balloc s = (
  s.freeblock,
  record s { freeblock = s.freeblock + 1; bitmap = balloc_mark s.freeblock s.bitmap },
)

-- The block `bn` of an inode, allocated if it has none.
unfoldable pub own_block : ℕ → Dinode → Builder → Dinode × Builder
unfolding balloc
own_block bn din s =
    if din.addrs bn == 0
    then (let r = balloc s in (record din { addrs = update din.addrs bn r.0 }, r.1))
    else (din, s)

-- The bytes of one round: to the end of the block, and no more than are left.
abbrev pub piece : ℕ → ℕ → ℕ
piece off n = if ltb n (1024 - off % 1024) then n else 1024 - off % 1024

abbrev pub memcpy : ℕ → (ℕ → ℕ) → ℕ → Block → Block
memcpy o src m b j = if leb o j && ltb j (o + m) then src (j - o) else b j

-- The loop of `iappend`, which writes the inode when all is there. A round takes at least one byte.
unfoldable pub iappend_from : ℕ → ℕ → Dinode → ℕ → (ℕ → ℕ) → ℕ → Builder → Option Builder
unfolding own_block winode
iappend_from zero inum din off src n s = some (winode inum (record din { size = off }) s)
iappend_from (suc k) inum din off src n s = elim (n == 0) [
  | true ↦ some (winode inum (record din { size = off }) s)
  | false ↦ elim (ltb (off / 1024) 12) [
    | false ↦ none
    | true ↦
        let r = own_block (off / 1024) din s in
        let a = r.0.addrs (off / 1024) in
        iappend_from k inum r.0 (off + piece off n) (λ j. src (piece off n + j)) (n - piece off n)
          (wsect a (memcpy (off % 1024) src (piece off n) (r.1.image a)) r.1)
  ]
]

unfoldable pub iappend : ℕ → (ℕ → ℕ) → ℕ → Builder → Option Builder
unfolding iappend_from
iappend inum src n s = iappend_from (n + 1) inum (rinode inum s) (rinode inum s).size src n s

abbrev pub nbitmap : ℕ
nbitmap = fssize / 8192 + 1

-- The loop of `write_bitmap` from block `i`.
unfoldable pub write_bitmap : ℕ → ℕ → Builder → Builder
write_bitmap zero i s = s
write_bitmap (suc k) i s = write_bitmap k (i + 1) (
    wsect (s.sb.bmapstart + i)
      (λ j. if ltb (i * 1024 + j) (fssize / 8 + 1) then s.bitmap (i * 1024 + j) else 0) s)

abbrev pub first_data : ℕ
first_data = 2 + 30 + (200 / 16 + 1) + nbitmap

abbrev pub layout : Superblock
layout = record {
  magic = 270544960;
  size = fssize;
  nblocks = fssize - first_data;
  ninodes = 200;
  nlog = 30;
  logstart = 2;
  inodestart = 2 + 30;
  bmapstart = 2 + 30 + (200 / 16 + 1);
}

-- The bytes of the superblock.
abbrev pub superblock_bytes : Superblock → Block
superblock_bytes sb = put_word 7 sb.bmapstart (
    put_word 6 sb.inodestart (
      put_word 5 sb.logstart (
        put_word 4 sb.nlog (
          put_word 3 sb.ninodes
            (put_word 2 sb.nblocks (put_word 1 sb.size (put_word 0 sb.magic (λ j. 0))))))))

-- The loop that marks the blocks below `k`.
unfoldable pub mark_below : ℕ → (ℕ → ℕ) → ℕ → ℕ
unfolding balloc_mark
mark_below zero f = f
mark_below (suc k) f = balloc_mark k (mark_below k f)

-- "." with one point, ".." with two: the inode number and the name.
abbrev pub dot_bytes : ℕ → ℕ → ℕ → ℕ
dot_bytes inum points j =
    get_or (inum % 256 ∷ inum / 256 % 256 ∷ []) j (if ltb j (2 + points) then 46 else 0)

-- The state behind the superblock.
abbrev pub formatted : Builder
formatted = wsect 1 (superblock_bytes layout) (record {
  image = λ n j. 0;
  sb = layout;
  freeinode = 1;
  freeblock = first_data;
  bitmap = mark_below first_data (λ j. 0);
})

unfoldable pub mkfs : Option Builder
unfolding ialloc iappend write_bitmap mark_below
mkfs =
    let r = ialloc 1 formatted in
    elim (iappend r.0 (dot_bytes r.0 1) 16 r.1) [
      | none ↦ none
      | some s ↦ elim (iappend r.0 (dot_bytes r.0 2) 16 s) [
        | none ↦ none
        | some t ↦ some (write_bitmap nbitmap 0 t)
      ]
    ]
