-- ===== src/System/Open.antt =====
-- kernel/sysfile.c: `sys_open` and `sys_close`.
use riscvos.Common.{
  ℕ, ◌/◌, ◌%◌, Bool, Option, none, some, List, ◌==◌, ◌&&◌, ◌||◌, not, if◌then◌else◌, update,
}
use riscvos.Common.Outcome.{Outcome, done, ◌>>=◌}
use riscvos.Process.{set_proc}
use riscvos.FileSystem.{Fs, set_inode}
use riscvos.FileSystem.Inodes.{ialloc, ilock, iunlock, iunlockput, iupdate}
use riscvos.FileSystem.Directory.{dirlookup, dirlink, namei, nameiparent}
use riscvos.FileSystem.File.{File, fd_inode, set_file, filealloc, fileclose}
use riscvos.System.{
  Kernel, minus_one, with_table, with_files, with_fs, proc_of, argint, argstr, start_op, finish_op,
  fail, give_up, file_of, fdalloc,
}

-- `O_WRONLY`, `O_RDWR` and `O_CREATE`.
abbrev pub o_wronly : ℕ → Bool
o_wronly omode = omode % 2 == 1

abbrev pub o_rdwr : ℕ → Bool
o_rdwr omode = omode / 2 % 2 == 1

abbrev pub o_create : ℕ → Bool
o_create omode = omode / 512 % 2 == 1

-- The branches of `sys_open` that find the inode and lock it; `none` where they end the transaction and return -1.
unfoldable pub open_existing : ℕ → ℕ → ℕ → Fs → Outcome (Option ℕ × Fs)
open_existing omode dp ip s = do
  t ← iunlockput dp s
  u ← ilock ip t
  if (u.inode ip).kind == 1 && (o_rdwr omode || o_wronly omode)
      then iunlockput ip u >>= give_up
      else done (some ip, u)

-- `ialloc` never returns null.
unfoldable pub open_new : ℕ → (ℕ → ℕ) → Fs → Outcome (Option ℕ × Fs)
open_new dp name s = do
  a ← ialloc (s.inode dp).dev 2 s
  t ← ilock a.0 a.1
  u ← iupdate a.0 (set_inode a.0 (record (t.inode a.0) { nlink = 1 }) t)
  d ← dirlink dp name (u.inode a.0).inum u
  if d.0
      then (iunlockput dp d.1 >>= λ v. done (some a.0, v))
      else (iunlockput a.0 d.1 >>= λ v. iunlockput dp v >>= give_up)

unfoldable pub open_create : ℕ → List ℕ → (ℕ → ℕ) → Fs → Outcome (Option ℕ × Fs)
unfolding open_existing open_new
open_create omode path stack s = nameiparent path stack s >>= λ r. elim r.0 [
  | none ↦ give_up r.1
  | some d ↦ ilock d.0 r.1 >>= λ t. dirlookup d.0 d.1 t >>= λ f. elim f.0 [
    | some e ↦ open_existing omode d.0 e.0 f.1
    | none ↦ open_new d.0 d.1 f.1
  ]
]

unfoldable pub open_plain : ℕ → List ℕ → (ℕ → ℕ) → Fs → Outcome (Option ℕ × Fs)
open_plain omode path stack s = namei path stack s >>= λ r. elim r.0 [
  | none ↦ give_up r.1
  | some d ↦ ilock d.0 r.1 >>= λ t.
      if (t.inode d.0).kind == 1 && not (omode == 0)
      then iunlockput d.0 t >>= give_up
      else done (some d.0, t)
]

abbrev pub opened_file : ℕ → ℕ → File → File
opened_file omode ip f = record f {
  kind = fd_inode;
  ip = ip;
  off = 0;
  readable = not (o_wronly omode);
  writable = o_wronly omode || o_rdwr omode;
}

-- The end of `sys_open`: the file and its descriptor, for an inode that is locked.
unfoldable pub open_file : ℕ → ℕ → ℕ → Kernel → Outcome (ℕ × Kernel)
unfolding fdalloc
open_file i omode ip k =
    let a = filealloc k.files in
    elim a.0 [
      | none ↦ iunlockput ip a.1.fs >>= λ s. fail (with_fs s k)
      | some f ↦
          let d = fdalloc f i k.table in
          elim d.0 [
            | none ↦ fileclose f a.1 >>= λ c.
                iunlockput ip c.fs >>= λ s. fail (with_fs s (with_files c k))
            | some fd ↦ iunlock ip a.1.fs >>= λ s. finish_op s >>= λ t. done (
              fd,
              with_fs t (
                  with_table d.1
                    (with_files (set_file f (opened_file omode ip (a.1.file f)) a.1) k)),
            )
          ]
    ]

-- `stack` is what `name` holds before.
unfoldable pub sys_open : (ℕ → ℕ) → ℕ → Kernel → Outcome (ℕ × Kernel)
unfolding open_create open_plain open_file
sys_open stack i k = start_op k.files.fs >>= λ s. elim (argstr 0 128 i k) [
  | none ↦ fail (with_fs s k)
  | some path ↦
      (if o_create (argint 1 i k)
        then open_create (argint 1 i k) path stack s
        else open_plain (argint 1 i k) path stack s)
      >>= λ r. elim r.0 [
        | none ↦ done (minus_one, with_fs r.1 k)
        | some ip ↦ open_file i (argint 1 i k) ip (with_fs r.1 k)
      ]
]

unfoldable pub sys_close : ℕ → Kernel → Outcome (ℕ × Kernel)
sys_close i k =
    let fd = argint 0 i k in
    elim (file_of fd (proc_of i k)) [
      | none ↦ done (minus_one, k)
      | some f ↦
          let p = record (proc_of i k) { ofile = update (proc_of i k).ofile fd none } in
          fileclose f k.files >>= λ c. done (0, with_files c (with_table (set_proc i p k.table) k))
    ]
