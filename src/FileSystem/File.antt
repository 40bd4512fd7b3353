-- ===== src/FileSystem/File.antt =====
-- kernel/file.c: the table of open files. A file pointer is an index of `ftable.file`; the field `type` is
-- `kind`, and `major`, which no code reads, is left out.
use riscvos.Common.{
  ℕ, zero, suc, ◌+◌, ◌^◌, ◌<◌, ◌≤◌, ◌≡◌, refl, Bool, true, false, Option, none, some, List, arith,
  length, ltb, ◌==◌, if◌then◌else◌, update, ap, ◌∙◌, ==_refl,
}
use riscvos.Common.Outcome.{Outcome, done, panic, ◌>>=◌}
use riscvos.Common.Word.{inc32, dec32, add32, slt}
use riscvos.FileSystem.{Fs}
use riscvos.FileSystem.Inodes.{ilock, iunlock, iput}
use riscvos.FileSystem.Content.{readi, writei}

-- `FD_NONE`, `FD_INODE` and `FD_DEVICE`.
pub data FileType : Type 0 where
  fd_none : FileType
  fd_inode : FileType
  fd_device : FileType

pub record File : Type 0 where
  pub kind : FileType
  pub ref : ℕ
  pub readable : Bool
  pub writable : Bool
  pub ip : ℕ
  pub off : ℕ

pub record Files : Type 0 where
  pub file : ℕ → File
  pub fs : Fs

abbrev pub nfile : ℕ
nfile = 100

abbrev pub set_file : ℕ → File → Files → Files
set_file i f s = record s { file = update s.file i f }

unfoldable pub fileinit : Files → Files
fileinit s = record s {
  file = λ i. if ltb i nfile then record (s.file i) { ref = 0; kind = fd_none } else s.file i;
}

-- The loop of `filealloc`, from slot `i`.
unfoldable pub find_file : (ℕ → File) → ℕ → ℕ → Option ℕ
find_file f zero i = none
find_file f (suc k) i = let rest = find_file f k (i + 1) in if (f i).ref == 0 then some i else rest

unfoldable pub filealloc : Files → Option ℕ × Files
unfolding find_file
filealloc s = elim (find_file s.file nfile 0) [
  | some i ↦ (some i, set_file i (record (s.file i) { ref = 1 }) s)
  | none ↦ (none, s)
]

unfoldable pub filedup : ℕ → Files → Outcome Files
filedup i s =
    if slt (s.file i).ref 1
    then panic "filedup"
    else done (set_file i (record (s.file i) { ref = inc32 (s.file i).ref }) s)

-- The end of `fileclose`, when no reference is left.
unfoldable pub close_last : ℕ → Files → Outcome Files
close_last i s = elim (s.file i).kind [
  | fd_inode ↦ iput (s.file i).ip s.fs >>= λ t.
      done (set_file i (record (s.file i) { kind = fd_none }) (record s { fs = t }))
  | _ ↦ done (set_file i (record (s.file i) { kind = fd_none }) s)
]

unfoldable pub fileclose : ℕ → Files → Outcome Files
unfolding close_last
fileclose i s =
    if slt (s.file i).ref 1
    then panic "fileclose"
    else (let t = set_file i (record (s.file i) { ref = dec32 (s.file i).ref }) s in
        if slt 0 (t.file i).ref then done t else close_last i t)

abbrev advance : ℕ → ℕ → Files → Files
advance i r s = set_file i (record (s.file i) { off = add32 (s.file i).off r }) s

-- The offset behind a transfer.
abbrev pub after_read : ℕ → Option (List ℕ) → Files → Files
after_read i none s = s
after_read i (some bs) s = advance i (length bs) s

abbrev pub after_write : ℕ → Option ℕ → Files → Files
after_write i none s = s
after_write i (some m) s = advance i m s

-- `none` is a return value of -1.
unfoldable pub fileread : ℕ → ℕ → Files → Outcome (Option (List ℕ) × Files)
fileread i n s =
    if (s.file i).readable
    then elim (s.file i).kind [
      | fd_inode ↦ (do
        t ← ilock (s.file i).ip s.fs
        r ← readi (s.file i).ip (s.file i).off n t
        u ← iunlock (s.file i).ip r.1
        done (r.0, after_read i r.0 (record s { fs = u })))
      | _ ↦ panic "fileread"
    ]
    else done (none, s)

unfoldable pub filewrite : ℕ → (ℕ → ℕ) → ℕ → Files → Outcome (Option ℕ × Files)
filewrite i src n s =
    if (s.file i).writable
    then elim (s.file i).kind [
      | fd_inode ↦ (do
        t ← ilock (s.file i).ip s.fs
        r ← writei (s.file i).ip src (s.file i).off n t
        u ← iunlock (s.file i).ip r.1
        done (r.0, after_write i r.0 (record s { fs = u })))
      | _ ↦ panic "filewrite"
    ]
    else done (none, s)

abbrev duplicated : ℕ → Files → Files
duplicated i s = set_file i (record (s.file i) { ref = inc32 (s.file i).ref }) s

abbrev with_count : File → ℕ → File
with_count f r = record f { ref = r }

update_twice : (f : ℕ → File) (i j : ℕ) (a b : File) → b ≡ f i → update (update f i a) i b j ≡ f j
update_twice f i j a b e = ground arith

-- Closing a file that was just duplicated succeeds and leaves every entry of the table and the file system as they were, if the
-- file is open and its count is small.
pub fileclose-filedup :
    (i : ℕ) (s : Files)
    → 1 ≤ (s.file i).ref
    → (s.file i).ref + 1 < 2 ^ 31
    → (t : Files) × ((filedup i s >>= fileclose i) ≡ done t)
      × ((j : ℕ) → t.file j ≡ s.file j)
      × (t.fs ≡ s.fs)
unfolding filedup fileclose
fileclose-filedup i s h small =
    let s₁ : Files = duplicated i s in
    let t : Files = set_file i (record (s₁.file i) { ref = dec32 (s₁.file i).ref }) s₁ in
    let count : (s₁.file i).ref ≡ (s.file i).ref + 1 = ground arith in
    let count' : (t.file i).ref ≡ (s.file i).ref = ground arith in
    let is_open : slt (s.file i).ref 1 ≡ false = ground arith in
    let still_open : slt (s₁.file i).ref 1 ≡ false = ground arith in
    let left : slt 0 (t.file i).ref ≡ true = ground arith in
    let e₁ : filedup i s ≡ done s₁ = rw (filedup, is_open) refl in
    let e₂ : fileclose i s₁ ≡ done t = rw (fileclose, still_open, left) refl in
    let self : s₁.file i ≡ record (s.file i) { ref = inc32 (s.file i).ref } = rw (==_refl i) refl in
    let undone : dec32 (inc32 (s.file i).ref) ≡ (s.file i).ref = omega arith in
    let back : record (s₁.file i) { ref = dec32 (s₁.file i).ref } ≡ s.file i =
      ap (λ f. with_count f (dec32 f.ref)) self ∙ ap (with_count (s.file i)) undone in
    (
      t,
      rw e₁ e₂,
      λ j.
          update_twice s.file i j (record (s.file i) { ref = inc32 (s.file i).ref })
            (record (s₁.file i) { ref = dec32 (s₁.file i).ref }) back,
      refl,
    )
