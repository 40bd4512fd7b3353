-- ===== src/System/Idle/Files.antt =====
-- kernel/sysfile.c: `sys_open`, `sys_close` and `sys_unlink` on an idle log.
use riscvos.Common.{
  ℕ, ◌+◌, ◌-◌, ◌%◌, ◌^◌, Option, none, some, List, ◌==◌, ◌&&◌, ◌||◌, not, if◌then◌else◌,
}
use riscvos.Common.Outcome.{
  done, ◌>>=◌, Ensures, returns, panics, Ensures->>=, Ensures-if, Ensures-option,
}
use riscvos.FileSystem.{Fs, set_inode}
use riscvos.FileSystem.Inodes.{iupdate}
use riscvos.FileSystem.Content.{itrunc}
use riscvos.FileSystem.File.{Files, find_file, filealloc, nfile, set_file}
use riscvos.FileSystem.Transactions.{
  ilock-Kept, iunlock-Kept, iunlockput-Kept, iupdate-Kept, ialloc-KeptWith,
}
use riscvos.FileSystem.Transactions.Contents.{writei-KeptWith, itrunc-Kept}
use riscvos.FileSystem.Transactions.Names.{
  dirlookup-KeptWith, dirlink-KeptWith, namei-KeptWith, nameiparent-KeptWith, fileclose-Kept,
}
use riscvos.System.{
  Kernel, with_fs, with_files, minus_one, proc_of, argint, argstr, file_of, fdalloc,
}
use riscvos.System.Open.{
  o_create, o_rdwr, o_wronly, open_existing, open_new, open_create, open_plain, open_file, sys_open,
  sys_close,
}
use riscvos.System.Remove.{
  is_dots, refuse, below_one, remove_file, remove_entry, remove_path, sys_unlink,
}
use riscvos.System.Idle.{
  open_law, idle_law, OpenFs, IdleFs, IdleKernel, IdleCall, Located, start_op-open, finish_op-idle,
  fail-IdleCall, give_up-Located,
}

open_existing-Located :
    (omode dp ip : ℕ) (s : Fs) → OpenFs s → Ensures Located (open_existing omode dp ip s)
unfolding open_existing
open_existing-Located omode dp ip s h = Ensures->>= (iunlockput-Kept open_law dp s h) (λ t h₁.
    Ensures->>= (ilock-Kept open_law ip t h₁) (λ u h₂.
      Ensures-if ((u.inode ip).kind == 1 && (o_rdwr omode || o_wronly omode))
        (λ _. Ensures->>= (iunlockput-Kept open_law ip u h₂) (λ v h₃. give_up-Located v h₃))
        (λ _. returns h₂)))

open_new-Located :
    (dp : ℕ) (name : ℕ → ℕ) (s : Fs) → OpenFs s → Ensures Located (open_new dp name s)
unfolding open_new
open_new-Located dp name s h =
    Ensures->>= (ialloc-KeptWith open_law (s.inode dp).dev 2 s h) (λ a h₁.
      Ensures->>= (ilock-Kept open_law a.0 a.1 h₁) (λ t h₂.
        Ensures->>=
          (iupdate-Kept open_law a.0 (set_inode a.0 (record (t.inode a.0) { nlink = 1 }) t) h₂)
          (λ u h₃. Ensures->>= (dirlink-KeptWith open_law dp name (u.inode a.0).inum u h₃) (λ d h₄.
            Ensures-if d.0
              (λ _. Ensures->>= (iunlockput-Kept open_law dp d.1 h₄) (λ v h₅. returns h₅))
              (λ _. Ensures->>= (iunlockput-Kept open_law a.0 d.1 h₄) (λ v h₅.
                Ensures->>= (iunlockput-Kept open_law dp v h₅) (λ w h₆. give_up-Located w h₆)))))))

open_create-Located :
    (omode : ℕ) (path : List ℕ) (stack : ℕ → ℕ) (s : Fs)
    → OpenFs s
    → Ensures Located (open_create omode path stack s)
unfolding open_create
open_create-Located omode path stack s h =
    Ensures->>= (nameiparent-KeptWith open_law path stack s h) (λ r h₁.
      Ensures-option r.0 (λ _. give_up-Located r.1 h₁)
        (λ d _. Ensures->>= (ilock-Kept open_law d.0 r.1 h₁) (λ t h₂.
          Ensures->>= (dirlookup-KeptWith open_law d.0 d.1 t h₂) (λ f h₃.
            Ensures-option f.0 (λ _. open_new-Located d.0 d.1 f.1 h₃)
              (λ e _. open_existing-Located omode d.0 e.0 f.1 h₃)))))

open_plain-Located :
    (omode : ℕ) (path : List ℕ) (stack : ℕ → ℕ) (s : Fs)
    → OpenFs s
    → Ensures Located (open_plain omode path stack s)
unfolding open_plain
open_plain-Located omode path stack s h =
    Ensures->>= (namei-KeptWith open_law path stack s h) (λ r h₁.
      Ensures-option r.0 (λ _. give_up-Located r.1 h₁)
        (λ d _. Ensures->>= (ilock-Kept open_law d.0 r.1 h₁) (λ t h₂.
          Ensures-if ((t.inode d.0).kind == 1 && not (omode == 0))
            (λ _. Ensures->>= (iunlockput-Kept open_law d.0 t h₂) (λ u h₃. give_up-Located u h₃))
            (λ _. returns h₂))))

filealloc-fs : (s : Files) → OpenFs s.fs → OpenFs (filealloc s).1.fs
unfolding filealloc
filealloc-fs s h = by_slot (find_file s.file nfile 0)
  where
    by_slot :
        (o : Option ℕ)
        → OpenFs
            (elim o as (λ _. Option ℕ × Files) [
              | some i ↦ (some i, set_file i (record (s.file i) { ref = 1 }) s)
              | none ↦ (none, s)
            ]).1.fs
    by_slot none = h
    by_slot (some i) = h

open_file-IdleCall :
    (i omode ip : ℕ) (k : Kernel) → OpenFs k.files.fs → Ensures IdleCall (open_file i omode ip k)
unfolding open_file
open_file-IdleCall i omode ip k h =
    let a = filealloc k.files in
    let h₁ = filealloc-fs k.files h in
    Ensures-option a.0
      (λ _.
        Ensures->>= (iunlockput-Kept open_law ip a.1.fs h₁)
          (λ s h₂. fail-IdleCall (with_fs s k) h₂))
      (λ f _.
        Ensures-option (fdalloc f i k.table).0
          (λ _. Ensures->>= (fileclose-Kept open_law f a.1 h₁) (λ c h₂.
            Ensures->>= (iunlockput-Kept open_law ip c.fs h₂)
              (λ s h₃. fail-IdleCall (with_fs s (with_files c k)) h₃)))
          (λ fd _.
            Ensures->>= (iunlock-Kept open_law ip a.1.fs h₁)
              (λ s h₂. Ensures->>= (finish_op-idle s h₂) (λ t h₃. returns h₃))))

-- `sys_open` on an idle log never waits for ever, and every path on which it returns leaves the log idle again.
pub sys_open-IdleCall :
    (stack : ℕ → ℕ) (i : ℕ) (k : Kernel) → IdleKernel k → Ensures IdleCall (sys_open stack i k)
unfolding sys_open
sys_open-IdleCall stack i k h = Ensures->>= (start_op-open k.files.fs h) (λ s h₁.
    Ensures-option (argstr 0 128 i k) (λ _. fail-IdleCall (with_fs s k) h₁)
      (λ path _. Ensures->>= (locate path s h₁) (λ r h₂. opened r.0 r.1 h₂)))
  where
    locate :
        (path : List ℕ) (s : Fs)
        → OpenFs s
        → Ensures Located (
            if o_create (argint 1 i k)
            then open_create (argint 1 i k) path stack s
            else open_plain (argint 1 i k) path stack s)
    locate path s h₁ =
        Ensures-if (o_create (argint 1 i k))
          (λ _. open_create-Located (argint 1 i k) path stack s h₁)
          (λ _. open_plain-Located (argint 1 i k) path stack s h₁)

    opened :
        (o : Option ℕ) (s : Fs)
        → Located (o, s)
        → Ensures IdleCall (elim o [
          | none ↦ done (minus_one, with_fs s k)
          | some ip ↦ open_file i (argint 1 i k) ip (with_fs s k)
        ])
    opened none s h₂ = returns h₂
    opened (some ip) s h₂ = open_file-IdleCall i (argint 1 i k) ip (with_fs s k) h₂

pub sys_close-IdleCall : (i : ℕ) (k : Kernel) → IdleKernel k → Ensures IdleCall (sys_close i k)
unfolding sys_close
sys_close-IdleCall i k h =
    Ensures-option (file_of (argint 0 i k) (proc_of i k)) (λ _. returns h)
      (λ f _. Ensures->>= (fileclose-Kept idle_law f k.files h) (λ c h₁. returns h₁))

-- What `sys_unlink` gives.
abbrev IdleUnlink : ℕ × Fs → Type 0
IdleUnlink r = IdleFs r.1

refuse-IdleUnlink : (s : Fs) → OpenFs s → Ensures IdleUnlink (refuse s)
refuse-IdleUnlink s h = Ensures->>= (finish_op-idle s h) (λ t h₁. returns h₁)

remove_file-IdleUnlink :
    (dp ip off : ℕ) (s : Fs) → OpenFs s → Ensures IdleUnlink (remove_file dp ip off s)
unfolding remove_file
remove_file-IdleUnlink dp ip off s h =
    Ensures->>= (writei-KeptWith open_law dp (λ j. 0) off 16 s h) (λ w h₁.
      Ensures-option w.0 (λ _. panics)
        (λ n _.
          Ensures-if (not (n == 16)) (λ _. panics)
            (λ _. Ensures->>= (iupdate-Kept open_law ip (unlinked w.1) h₁) (λ t h₂.
              Ensures->>= (iunlockput-Kept open_law dp t h₂) (λ u h₃.
                Ensures->>= (freed u h₃) (λ v h₄.
                  Ensures->>= (iunlockput-Kept open_law ip v h₄)
                    (λ x h₅. Ensures->>= (finish_op-idle x h₅) (λ y h₆. returns h₆))))))))
  where
    unlinked : Fs → Fs
    unlinked t =
        set_inode ip (record (t.inode ip) { nlink = ((t.inode ip).nlink + (2 ^ 16 - 1)) % 2 ^ 16 })
          t

    freed :
        (u : Fs)
        → OpenFs u
        → Ensures OpenFs (
            if (u.inode ip).nlink == 0
            then (itrunc ip u >>= λ x.
                iupdate ip (set_inode ip (record (x.inode ip) { kind = 0 }) x))
            else done u)
    freed u h₃ =
        Ensures-if ((u.inode ip).nlink == 0)
          (λ _. Ensures->>= (itrunc-Kept open_law ip u h₃) (λ x h₄.
            iupdate-Kept open_law ip (set_inode ip (record (x.inode ip) { kind = 0 }) x) h₄))
          (λ _. returns h₃)

remove_entry-IdleUnlink :
    (dp ip off : ℕ) (s : Fs) → OpenFs s → Ensures IdleUnlink (remove_entry dp ip off s)
unfolding remove_entry
remove_entry-IdleUnlink dp ip off s h = Ensures->>= (ilock-Kept open_law ip s h) (λ t h₁.
    Ensures-if (below_one (t.inode ip).nlink) (λ _. panics)
      (λ _.
        Ensures-if ((t.inode ip).kind == 1)
          (λ _. Ensures->>= (iunlockput-Kept open_law ip t h₁) (λ u h₂.
            Ensures->>= (iunlockput-Kept open_law dp u h₂) (λ v h₃. refuse-IdleUnlink v h₃)))
          (λ _. remove_file-IdleUnlink dp ip off t h₁)))

remove_path-IdleUnlink :
    (path : List ℕ) (stack : ℕ → ℕ) (s : Fs)
    → OpenFs s
    → Ensures IdleUnlink (remove_path path stack s)
unfolding remove_path
remove_path-IdleUnlink path stack s h =
    Ensures->>= (nameiparent-KeptWith open_law path stack s h) (λ r h₁.
      Ensures-option r.0 (λ _. refuse-IdleUnlink r.1 h₁)
        (λ d _. Ensures->>= (ilock-Kept open_law d.0 r.1 h₁) (λ t h₂.
          Ensures-if (is_dots d.1)
            (λ _. Ensures->>= (iunlockput-Kept open_law d.0 t h₂) (λ u h₃. refuse-IdleUnlink u h₃))
            (λ _. Ensures->>= (dirlookup-KeptWith open_law d.0 d.1 t h₂) (λ f h₃.
              Ensures-option f.0
                (λ _.
                  Ensures->>= (iunlockput-Kept open_law d.0 f.1 h₃)
                    (λ u h₄. refuse-IdleUnlink u h₄))
                (λ e _. remove_entry-IdleUnlink d.0 e.0 e.1 f.1 h₃))))))

-- `sys_unlink` on an idle log never waits for ever, and every path on which it returns leaves the log idle again.
pub sys_unlink-IdleCall :
    (stack : ℕ → ℕ) (i : ℕ) (k : Kernel) → IdleKernel k → Ensures IdleCall (sys_unlink stack i k)
unfolding sys_unlink
sys_unlink-IdleCall stack i k h = Ensures->>= (start_op-open k.files.fs h) (λ s h₁.
    Ensures-option (argstr 0 128 i k) (λ _. fail-IdleCall (with_fs s k) h₁)
      (λ path _. Ensures->>= (remove_path-IdleUnlink path stack s h₁) (λ r h₂. returns h₂)))
