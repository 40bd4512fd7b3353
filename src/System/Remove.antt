-- ===== src/System/Remove.antt =====
-- kernel/sysfile.c: `sys_unlink`.
use riscvos.Common.{
  ℕ, ◌+◌, ◌%◌, ◌^◌, Bool, none, some, List, ◌==◌, ◌&&◌, ◌||◌, leb, ◌-◌, not, if◌then◌else◌,
}
use riscvos.Common.Outcome.{Outcome, done, panic, ◌>>=◌}
use riscvos.FileSystem.{Fs, set_inode}
use riscvos.FileSystem.Inodes.{ilock, iunlockput, iupdate}
use riscvos.FileSystem.Content.{writei, itrunc}
use riscvos.FileSystem.Directory.{dirlookup, nameiparent}
use riscvos.System.{Kernel, with_fs, argstr, start_op, finish_op, fail, minus_one}

-- "." and "..".
abbrev pub is_dots : (ℕ → ℕ) → Bool
is_dots name = name 0 == 46 && (name 1 == 0 || (name 1 == 46 && name 2 == 0))

-- `end_op(); return -1;`
abbrev pub refuse : Fs → Outcome (ℕ × Fs)
refuse s = finish_op s >>= λ t. done (minus_one, t)

-- `nlink` is a `short`.
abbrev pub below_one : ℕ → Bool
below_one n = n == 0 || leb (2 ^ 15) n

-- The end of `sys_unlink`, for the file `ip` whose entry in `dp` is at `off`.
unfoldable pub remove_file : ℕ → ℕ → ℕ → Fs → Outcome (ℕ × Fs)
remove_file dp ip off s = writei dp (λ j. 0) off 16 s >>= λ w. elim w.0 [
  | none ↦ panic "unlink: writei"
  | some n ↦ if not (n == 16) then panic "unlink: writei" else (do
    t ← iupdate ip (
        set_inode ip
          (record (w.1.inode ip) { nlink = ((w.1.inode ip).nlink + (2 ^ 16 - 1)) % 2 ^ 16 }) w.1)
    u ← iunlockput dp t
    v ←
        (if (u.inode ip).nlink == 0
          then (itrunc ip u >>= λ x. iupdate ip (set_inode ip (record (x.inode ip) { kind = 0 }) x))
          else done u)
    x ← iunlockput ip v
    y ← finish_op x
    done (0, y))
]

-- The part of `sys_unlink` behind the lookup of the entry.
unfoldable pub remove_entry : ℕ → ℕ → ℕ → Fs → Outcome (ℕ × Fs)
unfolding remove_file
remove_entry dp ip off s = ilock ip s >>= λ t.
    if below_one (t.inode ip).nlink
    then panic "unlink: nlink < 1"
    else (if (t.inode ip).kind == 1
        then (iunlockput ip t >>= λ u. iunlockput dp u >>= refuse)
        else remove_file dp ip off t)

unfoldable pub remove_path : List ℕ → (ℕ → ℕ) → Fs → Outcome (ℕ × Fs)
unfolding remove_entry
remove_path path stack s = nameiparent path stack s >>= λ r. elim r.0 [
  | none ↦ refuse r.1
  | some d ↦ ilock d.0 r.1 >>= λ t.
      if is_dots d.1
      then iunlockput d.0 t >>= refuse
      else (dirlookup d.0 d.1 t >>= λ f. elim f.0 [
        | none ↦ iunlockput d.0 f.1 >>= refuse
        | some e ↦ remove_entry d.0 e.0 e.1 f.1
      ])
]

-- `stack` is what `name` holds before.
unfoldable pub sys_unlink : (ℕ → ℕ) → ℕ → Kernel → Outcome (ℕ × Kernel)
unfolding remove_path
sys_unlink stack i k = start_op k.files.fs >>= λ s. elim (argstr 0 128 i k) [
  | none ↦ fail (with_fs s k)
  | some path ↦ remove_path path stack s >>= λ r. done (r.0, with_fs r.1 k)
]
