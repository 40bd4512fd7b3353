-- ===== src/System/Idle/Orphan.antt =====
-- kernel/file.c and kernel/sysfile.c: closing a file that was unlinked while it was open.
use riscvos.Common.{ℕ, ◌≡◌, refl, subst, sym, ap, ◌∙◌, true, some, ◌==◌, ◌&&◌, not, arith, ==_refl}
use riscvos.Common.Outcome.{done, ◌>>=◌, Ensures, panics, Ensures->>=, Ensures-if, Ensures-option}
use riscvos.Common.Word.{slt, sub32, dec32}
use riscvos.Storage.Log.{Store, log_write}
use riscvos.Storage.Log.Phase.{IsIdle, acquire_log-locked}
use riscvos.FileSystem.{Fs, iblock, set_contents, contents, set_inode}
use riscvos.FileSystem.Inodes.{iupdate, iput, dinode_of}
use riscvos.FileSystem.File.{
  File, Files, FileType, fd_inode, fd_none, fd_device, fileclose, close_last, set_file,
}
use riscvos.FileSystem.Transactions.{get_block-KeptWith}
use riscvos.System.{Kernel, proc_of, argint, file_of}
use riscvos.System.Open.{sys_close}
use riscvos.System.Idle.{idle_law, IdleFs, IdleKernel}

-- Outside of a transaction `log_write` does not return.
log_write-never : (p : ℕ) (s : Store) → IsIdle s.log → Ensures (λ _. ⊥) (log_write p s)
unfolding log_write
log_write-never p s i = Ensures->>= (acquire_log-locked s.log i.lock) (λ l e.
    Ensures-if (not (slt l.n (sub32 l.size 1))) (λ _. panics)
      (λ _.
        Ensures-if (slt l.outstanding 1) (λ _. panics)
          (λ z.
            let none_open : l.outstanding ≡ 0 = ap (λ m. m.outstanding) e ∙ i.outstanding in
            absurd (ground (arith, none_open)))))

iupdate_never : (i : ℕ) (s : Fs) → IdleFs s → Ensures (λ _. ⊥) (iupdate i s)
unfolding iupdate
iupdate_never i s h =
    Ensures->>= (get_block-KeptWith idle_law (s.inode i).dev (iblock (s.inode i).inum s.sb) s h)
      (λ bp h'.
        Ensures->>=
          (Ensures->>=
            (log_write-never bp.0
              (set_contents bp.0 (dinode_of (s.inode i) (contents bp.0 bp.1)) bp.1).store h')
            (λ t z. absurd z))
          (λ t z. absurd z))

-- An open file whose inode has no name any more, and to which this is the last reference.
pub record IsOrphan (f : ℕ) (s : Files) : Type 0 where
  pub ref : (s.file f).ref ≡ 1
  pub kind : (s.file f).kind ≡ fd_inode
  pub inode_ref : (s.fs.inode (s.file f).ip).ref ≡ 1
  pub valid : (s.fs.inode (s.file f).ip).valid ≡ true
  pub nlink : (s.fs.inode (s.file f).ip).nlink ≡ 0

-- The inode of `q` is in use by one reference, and no entry of a directory names it.
abbrev HasNoName : File → Fs → Type 0
HasNoName q s =
    ((s.inode q.ip).ref ≡ 1) × ((s.inode q.ip).valid ≡ true) × ((s.inode q.ip).nlink ≡ 0)

iput-never :
    (i : ℕ) (s : Fs)
    → IdleFs s
    → (s.inode i).ref ≡ 1
    → (s.inode i).valid ≡ true
    → (s.inode i).nlink ≡ 0
    → Ensures (λ _. ⊥) (iput i s)
unfolding iput
iput-never i s h r v n =
    Ensures-if ((s.inode i).ref == 1 && ((s.inode i).valid && (s.inode i).nlink == 0))
      (λ _.
        Ensures->>= (iupdate_never i (set_inode i (record (s.inode i) { kind = 0 }) s) h)
          (λ t z. absurd z))
      (λ e. absurd (ground (arith, r, v, n)))

close_last-never :
    (f : ℕ) (s : Files)
    → IdleFs s.fs
    → (s.file f).kind ≡ fd_inode
    → HasNoName (s.file f) s.fs
    → Ensures (λ _. ⊥) (close_last f s)
unfolding close_last
close_last-never f s h e o = by_kind (s.file f).kind e
  where
    by_kind :
        (t : FileType)
        → t ≡ fd_inode
        → Ensures
            (λ _. ⊥)
            (elim t [
              | fd_inode ↦ iput (s.file f).ip s.fs >>= λ t.
                  done (set_file f (record (s.file f) { kind = fd_none }) (record s { fs = t }))
              | _ ↦ done (set_file f (record (s.file f) { kind = fd_none }) s)
            ])
    by_kind fd_inode z = Ensures->>= (iput-never (s.file f).ip s.fs h o.0 o.1 o.2) (λ t w. absurd w)
    by_kind fd_none z = cc
    by_kind fd_device z = cc

fileclose-never :
    (f : ℕ) (s : Files) → IdleFs s.fs → IsOrphan f s → Ensures (λ _. ⊥) (fileclose f s)
unfolding fileclose
fileclose-never f s h o =
    Ensures-if (slt (s.file f).ref 1) (λ _. panics)
      (λ _.
        let t : Files = set_file f (record (s.file f) { ref = dec32 (s.file f).ref }) s in
        Ensures-if (slt 0 (t.file f).ref) (λ e. absurd (ground (arith, o.ref, ==_refl f)))
          (λ _.
            close_last-never f t h (ap (λ q. q.kind) self ∙ o.kind)
              (subst (λ q. HasNoName q s.fs) (sym self) (o.inode_ref, o.valid, o.nlink))))
  where
    self :
        (set_file f (record (s.file f) { ref = dec32 (s.file f).ref }) s).file f
        ≡ record (s.file f) { ref = dec32 (s.file f).ref }
    self = rw (==_refl f) refl

-- `sys_close` on an idle log never returns for the last reference to a file whose last name was unlinked: it stops the machine.
pub sys_close-IsOrphan :
    (i f : ℕ) (k : Kernel)
    → IdleKernel k
    → file_of (argint 0 i k) (proc_of i k) ≡ some f
    → IsOrphan f k.files
    → Ensures (λ _. ⊥) (sys_close i k)
unfolding sys_close
sys_close-IsOrphan i f k h e o =
    Ensures-option (file_of (argint 0 i k) (proc_of i k)) (λ z. cc)
      (λ g z.
        let same : f ≡ g = cc in
        Ensures->>= (fileclose-never g k.files h (subst (λ j. IsOrphan j k.files) same o))
          (λ c w. absurd w))
