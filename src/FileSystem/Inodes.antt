-- ===== src/FileSystem/Inodes.antt =====
-- kernel/fs.c: the inode cache and the inodes on the disk. `short` fields are 16-bit patterns.
pub mod Update
pub mod Reload
use riscvos.Common.{
  ℕ, zero, suc, ◌+◌, ◌*◌, ◌/◌, ◌%◌, true, false, Option, none, some, ◌&&◌, ◌==◌, ltb, leb, ◌-◌,
  if◌then◌else◌, update,
}
use riscvos.Common.Outcome.{Outcome, done, panic, ◌>>=◌}
use riscvos.Common.Word.{inc32, dec32, slt, rounds}
use riscvos.Storage.Bio.{Block}
use riscvos.Storage.Bytes.{get_word, put_word}
use riscvos.FileSystem.{
  Fs, Inode, ninode, iblock, get_block, release, log_buffer, contents, set_contents, set_inode,
}

-- A 16-bit field at byte `o`.
abbrev pub get_half : Block → ℕ → ℕ
get_half b o = b o + 256 * b (o + 1)

abbrev pub put_half : ℕ → ℕ → Block → Block
put_half o v b = update (update b o (v % 256)) (o + 1) (v / 256 % 256)

-- The loop of `iget`: the entry in use for the inode, or else the first one without a reference.
unfoldable pub find_inode : ℕ → ℕ → (ℕ → Inode) → ℕ → ℕ → Option ℕ
find_inode dev inum f zero i = none
find_inode dev inum f (suc k) i =
    let rest = find_inode dev inum f k (i + 1) in
    if slt 0 (f i).ref && ((f i).dev == dev && (f i).inum == inum) then some i else rest

unfoldable pub find_empty : (ℕ → Inode) → ℕ → ℕ → Option ℕ
find_empty f zero i = none
find_empty f (suc k) i =
    let rest = find_empty f k (i + 1) in if (f i).ref == 0 then some i else rest

unfoldable pub iget : ℕ → ℕ → Fs → Outcome (ℕ × Fs)
unfolding find_inode find_empty
iget dev inum s = elim (find_inode dev inum s.inode ninode 0) [
  | some i ↦ done (i, set_inode i (record (s.inode i) { ref = inc32 (s.inode i).ref }) s)
  | none ↦ elim (find_empty s.inode ninode 0) [
    | some i ↦
        done
          (i, set_inode i (record (s.inode i) { dev = dev; inum = inum; ref = 1; valid = false }) s)
    | none ↦ panic "iget: no inodes"
  ]
]

-- `dinode` number `inum % IPB` of its block: 64 bytes, of which the last 52 are the addresses.
abbrev pub dinode_at : ℕ → ℕ
dinode_at inum = inum % 16 * 64

abbrev pub get_addrs : Block → ℕ → (ℕ → ℕ) → ℕ → ℕ
get_addrs d o old i = if ltb i 13 then get_word d (o / 4 + 3 + i) else old i

-- The loop that stores the addresses.
unfoldable pub put_addrs : (ℕ → ℕ) → ℕ → ℕ → ℕ → Block → Block
put_addrs f o zero i b = b
put_addrs f o (suc k) i b = put_addrs f o k (i + 1) (put_word (o / 4 + 3 + i) (f i) b)

unfoldable pub ilock : ℕ → Fs → Outcome Fs
ilock i s =
    if slt (s.inode i).ref 1
    then panic "ilock"
    else (if (s.inode i).valid then done s else (do
      bp ← get_block (s.inode i).dev (iblock (s.inode i).inum s.sb) s
      let d = contents bp.0 bp.1
      let o = dinode_at (s.inode i).inum
      let ip = record (s.inode i) {
        kind = get_half d o;
        major = get_half d (o + 2);
        minor = get_half d (o + 4);
        nlink = get_half d (o + 6);
        size = get_word d (o / 4 + 2);
        addrs = get_addrs d o (s.inode i).addrs;
        valid = true;
      }
      let t = set_inode i ip (release bp.0 bp.1)
      if ip.kind == 0 then panic "ilock: no type" else done t))

unfoldable pub iunlock : ℕ → Fs → Outcome Fs
iunlock i s = if slt (s.inode i).ref 1 then panic "iunlock" else done s

unfoldable pub dinode_of : Inode → Block → Block
unfolding put_addrs
dinode_of ip d =
    let o = dinode_at ip.inum in
    put_addrs ip.addrs o 13 0 (
      put_word (o / 4 + 2) ip.size (
        put_half (o + 6) ip.nlink
          (put_half (o + 4) ip.minor (put_half (o + 2) ip.major (put_half o ip.kind d)))))

unfoldable pub iupdate : ℕ → Fs → Outcome Fs
unfolding dinode_of
iupdate i s = do
  bp ← get_block (s.inode i).dev (iblock (s.inode i).inum s.sb) s
  t ← log_buffer bp.0 (set_contents bp.0 (dinode_of (s.inode i) (contents bp.0 bp.1)) bp.1)
  done (release bp.0 t)

abbrev pub drop_ref : ℕ → Fs → Fs
drop_ref i s = set_inode i (record (s.inode i) { ref = dec32 (s.inode i).ref }) s

unfoldable pub iput : ℕ → Fs → Outcome Fs
unfolding iupdate
iput i s =
    if (s.inode i).ref == 1 && ((s.inode i).valid && (s.inode i).nlink == 0)
    then (do
      t ← iupdate i (set_inode i (record (s.inode i) { kind = 0 }) s)
      done (drop_ref i (set_inode i (record (t.inode i) { valid = false }) t)))
    else done (drop_ref i s)

unfoldable pub iunlockput : ℕ → Fs → Outcome Fs
unfolding iunlock iput
iunlockput i s = iunlock i s >>= λ t. iput i t

-- A new dinode: zero but for its type.
abbrev pub fresh : ℕ → ℕ → Block → Block
fresh o kind d = put_half o kind (λ j. if leb o j && ltb j (o + 64) then 0 else d j)

-- The loop of `ialloc` from `inum`.
unfoldable pub ialloc_from : ℕ → ℕ → ℕ → ℕ → Fs → Outcome (ℕ × Fs)
unfolding iget
ialloc_from zero dev kind inum s = panic "ialloc: no inodes"
ialloc_from (suc k) dev kind inum s = get_block dev (iblock inum s.sb) s >>= λ bp.
    elim (get_half (contents bp.0 bp.1) (dinode_at inum) == 0) [
      | true ↦
          log_buffer bp.0
            (set_contents bp.0 (fresh (dinode_at inum) kind (contents bp.0 bp.1)) bp.1)
          >>= λ t. iget dev inum (release bp.0 t)
      | false ↦ ialloc_from k dev kind (inum + 1) (release bp.0 bp.1)
    ]

unfoldable pub ialloc : ℕ → ℕ → Fs → Outcome (ℕ × Fs)
unfolding ialloc_from
ialloc dev kind s = ialloc_from (rounds s.sb.ninodes - 1) dev kind 1 s
