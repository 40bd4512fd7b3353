-- ===== src/FileSystem/Directory.antt =====
-- kernel/fs.c: directories and paths.
use riscvos.Common.{
  ℕ, zero, suc, ◌+◌, ◌*◌, ◌/◌, ◌%◌, Bool, true, false, Option, none, some, List, [], ◌∷◌, length,
  get_or, ◌==◌, ltb, ◌&&◌, if◌then◌else◌,
}
use riscvos.Common.Outcome.{Outcome, done, panic, ◌>>=◌}
use riscvos.Common.Word.{rounds}
use Prim.Native.String.{String}
use riscvos.FileSystem.{Fs}
use riscvos.FileSystem.Inodes.{iget, ilock, iunlock, iput, iunlockput}
use riscvos.FileSystem.Content.{readi, writei}
use riscvos.FileSystem.Path.{dirsiz, skipelem}

-- `struct dirent` as the 16 bytes that `readi` copied: the inode number, then the name.
abbrev pub dirent_inum : List ℕ → ℕ
dirent_inum de = get_or de 0 0 + 256 * get_or de 1 0

abbrev pub dirent_name : List ℕ → ℕ → ℕ
dirent_name de j = get_or de (2 + j) 0

-- The comparison of `dirlookup`, from character `i` with `k` characters left.
unfoldable pub names_match : (ℕ → ℕ) → (ℕ → ℕ) → ℕ → ℕ → Bool
names_match a b zero i = true
names_match a b (suc k) i =
    let rest = names_match a b k (i + 1) in
    if a i == b i then (if a i == 0 then true else rest) else false

-- An entry of a directory, or the panic of its reader.
unfoldable pub read_dirent : String → ℕ → ℕ → Fs → Outcome (List ℕ × Fs)
read_dirent msg dp off s = readi dp off 16 s >>= λ r. elim r.0 [
  | none ↦ panic msg
  | some de ↦ if length de == 16 then done (de, r.1) else panic msg
]

-- The loop of `dirlookup`: the inode, and the offset of its entry.
unfoldable pub dirlookup_from : ℕ → ℕ → (ℕ → ℕ) → ℕ → Fs → Outcome (Option (ℕ × ℕ) × Fs)
unfolding names_match read_dirent
dirlookup_from zero dp name off s = done (none, s)
dirlookup_from (suc k) dp name off s = elim (ltb off (s.inode dp).size) [
  | false ↦ done (none, s)
  | true ↦ read_dirent "dirlookup read" dp off s >>= λ de. elim (dirent_inum de.0 == 0) [
    | true ↦ dirlookup_from k dp name (off + 16) de.1
    | false ↦ elim (names_match name (dirent_name de.0) dirsiz 0) [
      | true ↦ iget (de.1.inode dp).dev (dirent_inum de.0) de.1 >>= λ r. done (some (r.0, off), r.1)
      | false ↦ dirlookup_from k dp name (off + 16) de.1
    ]
  ]
]

unfoldable pub dirlookup : ℕ → (ℕ → ℕ) → Fs → Outcome (Option (ℕ × ℕ) × Fs)
unfolding dirlookup_from
dirlookup dp name s =
    if (s.inode dp).kind == 1
    then dirlookup_from ((s.inode dp).size / 16 + 1) dp name 0 s
    else panic "dirlookup not DIR"

-- The search of `dirlink` for an empty entry; the end of the directory if there is none.
unfoldable pub find_slot : ℕ → ℕ → ℕ → Fs → Outcome (ℕ × Fs)
unfolding read_dirent
find_slot zero dp off s = done (off, s)
find_slot (suc k) dp off s = elim (ltb off (rounds (s.inode dp).size)) [
  | false ↦ done (off, s)
  | true ↦ read_dirent "dirlink read" dp off s >>= λ de. elim (dirent_inum de.0 == 0) [
    | true ↦ done (off, de.1)
    | false ↦ find_slot k dp (off + 16) de.1
  ]
]

-- The bytes of the new entry; a NUL in the name does not end the loop, which copies what follows.
abbrev pub dirent_bytes : ℕ → (ℕ → ℕ) → ℕ → ℕ
dirent_bytes inum name zero = inum % 256
dirent_bytes inum name (suc zero) = inum / 256 % 256
dirent_bytes inum name (suc (suc j)) = name j

unfoldable pub dirlink : ℕ → (ℕ → ℕ) → ℕ → Fs → Outcome (Bool × Fs)
unfolding dirlookup find_slot
dirlink dp name inum s = dirlookup dp name s >>= λ f. elim f.0 [
  | some r ↦ iput r.0 f.1 >>= λ t. done (false, t)
  | none ↦ find_slot ((f.1.inode dp).size / 16 + 1) dp 0 f.1 >>= λ o.
      writei dp (dirent_bytes inum name) o.0 16 o.1 >>= λ w. elim w.0 [
        | some n ↦ if n == 16 then done (true, w.1) else panic "dirlink"
        | none ↦ panic "dirlink"
      ]
]

abbrev pub is_end : List ℕ → Bool
is_end [] = true
is_end (c ∷ cs) = false

-- The loop of `namex`. Each round takes at least one character from the path, which bounds the rounds.
unfoldable pub namex_from :
    ℕ → Bool → List ℕ → (ℕ → ℕ) → ℕ → Fs → Outcome (Option (ℕ × (ℕ → ℕ)) × Fs)
unfolding dirlookup
namex_from zero parent path name i s = done (none, s)
namex_from (suc k) parent path name i s = elim (skipelem path name) [
  | none ↦ if parent then (iput i s >>= λ t. done (none, t)) else done (some (i, name), s)
  | some r ↦ ilock i s >>= λ t. elim ((t.inode i).kind == 1) [
    | false ↦ iunlockput i t >>= λ u. done (none, u)
    | true ↦ elim (parent && is_end r.0) [
      | true ↦ iunlock i t >>= λ u. done (some (i, r.1), u)
      | false ↦ dirlookup i r.1 t >>= λ d. elim d.0 [
        | none ↦ iunlockput i d.1 >>= λ u. done (none, u)
        | some n ↦ iunlockput i d.1 >>= λ u. namex_from k parent r.0 r.1 n.0 u
      ]
    ]
  ]
]

-- Both branches of the first test of `namex` start at the root.
unfoldable pub namex : Bool → List ℕ → (ℕ → ℕ) → Fs → Outcome (Option (ℕ × (ℕ → ℕ)) × Fs)
unfolding namex_from
namex parent path name s = iget 0 1 s >>= λ r. namex_from (length path + 1) parent path name r.0 r.1

unfoldable pub namei : List ℕ → (ℕ → ℕ) → Fs → Outcome (Option (ℕ × (ℕ → ℕ)) × Fs)
unfolding namex
namei path name s = namex false path name s

unfoldable pub nameiparent : List ℕ → (ℕ → ℕ) → Fs → Outcome (Option (ℕ × (ℕ → ℕ)) × Fs)
unfolding namex
nameiparent path name s = namex true path name s
