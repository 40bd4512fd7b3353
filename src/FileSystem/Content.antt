-- ===== src/FileSystem/Content.antt =====
-- kernel/fs.c: the contents of an inode. A return value of -1 is `none`. `readi` gives the bytes that it copies, `writei`
-- takes its source as a function of the offset.
pub mod Reading
pub mod Bytes
pub mod Files
pub mod Slots
pub mod Writing
pub mod RoundTrip
use riscvos.Common.{
  not, ℕ, zero, suc, ◌+◌, ◌-◌, ◌*◌, ◌/◌, ◌%◌, ◌^◌, Bool, true, false, Option, none, some, List, [],
  ◌∷◌, ◌++◌, ◌&&◌, ◌||◌, ◌==◌, ltb, leb, if◌then◌else◌, update,
}
use riscvos.Common.Outcome.{Outcome, done, panic, ◌>>=◌}
use riscvos.Common.Word.{add32, slt}
use riscvos.Storage.Bio.{Block}
use riscvos.Storage.Bytes.{get_word, put_word}
use riscvos.FileSystem.{
  Fs, Inode, bsize, ndirect, nindirect, get_block, release, log_buffer, contents, set_contents,
  set_inode,
}
use riscvos.FileSystem.Blocks.{balloc, bfree}
use riscvos.FileSystem.Inodes.{iupdate}

abbrev pub set_addr : ℕ → ℕ → ℕ → Fs → Fs
set_addr i bn a s = set_inode i (record (s.inode i) { addrs = update (s.inode i).addrs bn a }) s

-- A slot of `addrs`, allocated if it is empty and `create` is set; 0 when there is no block.
unfoldable pub addr_slot : ℕ → ℕ → Bool → Fs → Outcome (ℕ × Fs)
addr_slot i bn create s =
    if not ((s.inode i).addrs bn == 0)
    then done ((s.inode i).addrs bn, s)
    else (if create
        then (balloc (s.inode i).dev s >>= λ a. done (a.0, set_addr i bn a.0 a.1))
        else done (0, s))

-- The entry `bn` of the indirect block `addr`.
unfoldable pub indirect_slot : ℕ → ℕ → ℕ → Bool → Fs → Outcome (ℕ × Fs)
indirect_slot i addr bn create s = get_block (s.inode i).dev addr s >>= λ bp.
    let a = get_word (contents bp.0 bp.1) bn in
    if a == 0 && create
    then (do
      r ← balloc (s.inode i).dev bp.1
      t ← log_buffer bp.0 (set_contents bp.0 (put_word bn r.0 (contents bp.0 r.1)) r.1)
      done (r.0, release bp.0 t))
    else done (a, release bp.0 bp.1)

unfoldable pub bmap : ℕ → ℕ → Bool → Fs → Outcome (ℕ × Fs)
unfolding addr_slot indirect_slot
bmap i bn create s =
    if ltb bn ndirect
    then addr_slot i bn create s
    else (if ltb (bn - ndirect) nindirect
        then (addr_slot i ndirect create s >>= λ a.
            if a.0 == 0 && not create
            then done (0, a.1)
            else indirect_slot i a.0 (bn - ndirect) create a.1)
        else panic "bmap: out of range")

-- The bytes copied in one round: to the end of the block, and no more than are left.
abbrev pub chunk : ℕ → ℕ → ℕ
chunk off n = if ltb n (bsize - off % bsize) then n else bsize - off % bsize

-- `m` bytes of a block from offset `o`.
abbrev pub slice : Block → ℕ → ℕ → List ℕ
slice b o zero = []
slice b o (suc m) = b o ∷ slice b (o + 1) m

-- One round of `readi`.
unfoldable pub read_chunk : ℕ → ℕ → ℕ → Fs → Outcome (List ℕ × Fs)
unfolding bmap
read_chunk i off m s = bmap i (off / bsize) false s >>= λ a.
    if a.0 == 0 then done (slice (λ j. 0) 0 m, a.1) else (do
      bp ← get_block (a.1.inode i).dev a.0 a.1
      done (slice (contents bp.0 bp.1) (off % bsize) m, release bp.0 bp.1))

-- The loop of `readi`, with `n` bytes left to read.
unfoldable pub readi_from : ℕ → ℕ → ℕ → ℕ → Fs → Outcome (List ℕ × Fs)
unfolding read_chunk
readi_from zero i off n s = done ([], s)
readi_from (suc k) i off n s = elim (n == 0) [
  | true ↦ done ([], s)
  | false ↦ (do
    bs ← read_chunk i off (chunk off n) s
    rest ← readi_from k i (off + chunk off n) (n - chunk off n) bs.1
    done (bs.0 ++ rest.0, rest.1))
]

-- The guard that `readi` and `writei` share.
abbrev pub bad_range : ℕ → ℕ → ℕ → Bool
bad_range size off n = ltb size off || ltb (add32 off n) off

abbrev pub clamp : ℕ → ℕ → ℕ → ℕ
clamp size off n = if ltb size (add32 off n) then size - off else n

-- A round reaches the end of a block or of the range, which bounds the rounds.
unfoldable pub readi : ℕ → ℕ → ℕ → Fs → Outcome (Option (List ℕ) × Fs)
unfolding readi_from
readi i off n s = if bad_range (s.inode i).size off n then done (none, s) else (do
  let m = clamp (s.inode i).size off n
  r ← readi_from (m / bsize + 2) i off m s
  done (some r.0, r.1))

-- `m` bytes of the source from `tot` on, at offset `o` of a block.
abbrev pub patch : Block → ℕ → ℕ → (ℕ → ℕ) → ℕ → Block
patch b o m src tot j = if leb o j && ltb j (o + m) then src (tot + (j - o)) else b j

-- The loop of `writei`: `none` where `bmap` has no block.
unfoldable pub writei_from : ℕ → ℕ → (ℕ → ℕ) → ℕ → ℕ → ℕ → Fs → Outcome (Option ℕ × Fs)
unfolding bmap
writei_from zero i src tot off n s = done (some off, s)
writei_from (suc k) i src tot off n s = elim (n == 0) [
  | true ↦ done (some off, s)
  | false ↦ bmap i (off / bsize) true s >>= λ a. elim (a.0 == 0) [
    | true ↦ done (none, a.1)
    | false ↦ (do
      bp ← get_block (a.1.inode i).dev a.0 a.1
      t ←
          log_buffer bp.0 (
            set_contents bp.0 (patch (contents bp.0 bp.1) (off % bsize) (chunk off n) src tot) bp.1)
      writei_from k i src (tot + chunk off n) (off + chunk off n) (n - chunk off n)
          (release bp.0 t))
  ]
]

-- `off > ip->size` after the loop is a growing file.
unfoldable pub grow : ℕ → ℕ → Fs → Fs
grow i off s =
    if ltb (s.inode i).size off then set_inode i (record (s.inode i) { size = off }) s else s

unfoldable pub writei : ℕ → (ℕ → ℕ) → ℕ → ℕ → Fs → Outcome (Option ℕ × Fs)
unfolding writei_from grow
writei i src off n s =
    if bad_range (s.inode i).size off n
    then done (none, s)
    else (writei_from (n / bsize + 2) i src 0 off n s >>= λ r. elim r.0 [
      | none ↦ done (none, r.1)
      | some end ↦
          if n == 0
          then done (some n, r.1)
          else (do t ← iupdate i (grow i end r.1); done (some n, t))
    ])

-- The loops of `itrunc` over the direct and over the indirect addresses.
unfoldable pub free_direct : ℕ → ℕ → ℕ → Fs → Outcome Fs
free_direct zero i bn s = done s
free_direct (suc k) i bn s = elim ((s.inode i).addrs bn == 0) [
  | true ↦ free_direct k i (bn + 1) s
  | false ↦ bfree (s.inode i).dev ((s.inode i).addrs bn) s >>= λ t.
      free_direct k i (bn + 1) (set_addr i bn 0 t)
]

unfoldable pub free_indirect : ℕ → ℕ → ℕ → ℕ → Fs → Outcome Fs
free_indirect zero i p j s = done s
free_indirect (suc k) i p j s = elim (get_word (contents p s) j == 0) [
  | true ↦ free_indirect k i p (j + 1) s
  | false ↦
      bfree (s.inode i).dev (get_word (contents p s) j) s >>= λ t. free_indirect k i p (j + 1) t
]

unfoldable pub itrunc : ℕ → Fs → Outcome Fs
unfolding free_direct free_indirect
itrunc i s = do
  t ← free_direct ndirect i 0 s
  u ←
      (if (t.inode i).addrs ndirect == 0 then done t else (do
        bp ← get_block (t.inode i).dev ((t.inode i).addrs ndirect) t
        v ← free_indirect nindirect i bp.0 0 bp.1
        w ← bfree (v.inode i).dev ((v.inode i).addrs ndirect) (release bp.0 v)
        done (set_addr i ndirect 0 w)))
  iupdate i (set_inode i (record (u.inode i) { size = 0 }) u)
