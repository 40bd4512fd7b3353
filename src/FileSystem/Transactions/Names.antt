-- ===== src/FileSystem/Transactions/Names.antt =====
-- kernel/fs.c on the log: directories and paths. kernel/file.c on the log: an open file.
use riscvos.Common.{
  ℕ, zero, suc, ◌+◌, ◌/◌, Bool, true, false, Option, none, some, List, length, ◌==◌, ◌&&◌, ltb,
}
use riscvos.Common.Outcome.{
  done, panic, ◌>>=◌, Ensures, returns, panics, Ensures->>=, Ensures-if, Ensures-bool,
  Ensures-option,
}
use riscvos.Common.Word.{rounds, slt, dec32}
use Prim.Native.String.{String}
use riscvos.FileSystem.{Fs}
use riscvos.FileSystem.Inodes.{iput, ilock, iunlock}
use riscvos.FileSystem.Content.{readi, writei}
use riscvos.FileSystem.Path.{dirsiz, skipelem}
use riscvos.FileSystem.Directory.{
  dirent_inum, dirent_name, names_match, read_dirent, dirlookup_from, dirlookup, find_slot,
  dirent_bytes, dirlink, is_end, namex_from, namex, namei, nameiparent,
}
use riscvos.FileSystem.File.{
  Files, FileType, fd_none, fd_inode, fd_device, close_last, fileclose, filewrite, fileread,
  set_file, after_read, after_write,
}
use riscvos.FileSystem.Transactions.{
  LogLaw, Kept, KeptWith, iget-KeptWith, ilock-Kept, iunlock-Kept, iput-Kept, iunlockput-Kept,
}
use riscvos.FileSystem.Transactions.Contents.{readi-KeptWith, writei-KeptWith}

module _ (V : LogLaw) where
  read_dirent-KeptWith :
      (m : String) (dp off : ℕ) (s : Fs) → Kept V s → Ensures (KeptWith V) (read_dirent m dp off s)
  unfolding read_dirent
  read_dirent-KeptWith m dp off s h = Ensures->>= (readi-KeptWith V dp off 16 s h) (λ r k.
      Ensures-option r.0 (λ _. panics)
        (λ de _. Ensures-if (length de == 16) (λ _. returns k) (λ _. panics)))

  dirlookup_from-KeptWith :
      (k dp : ℕ) (name : ℕ → ℕ) (off : ℕ) (s : Fs)
      → Kept V s
      → Ensures (KeptWith V) (dirlookup_from k dp name off s)
  unfolding dirlookup_from
  dirlookup_from-KeptWith zero dp name off s h = returns h
  dirlookup_from-KeptWith (suc k) dp name off s h =
      Ensures-bool (ltb off (s.inode dp).size)
        (λ _. Ensures->>= (read_dirent-KeptWith "dirlookup read" dp off s h) (λ de h'.
          Ensures-bool (dirent_inum de.0 == 0)
            (λ _. dirlookup_from-KeptWith k dp name (off + 16) de.1 h')
            (λ _.
              Ensures-bool (names_match name (dirent_name de.0) dirsiz 0)
                (λ _.
                  Ensures->>= (iget-KeptWith V (de.1.inode dp).dev (dirent_inum de.0) de.1 h')
                    (λ r z. returns z))
                (λ _. dirlookup_from-KeptWith k dp name (off + 16) de.1 h'))))
        (λ _. returns h)

  pub dirlookup-KeptWith :
      (dp : ℕ) (name : ℕ → ℕ) (s : Fs) → Kept V s → Ensures (KeptWith V) (dirlookup dp name s)
  unfolding dirlookup
  dirlookup-KeptWith dp name s h =
      Ensures-if ((s.inode dp).kind == 1)
        (λ _. dirlookup_from-KeptWith ((s.inode dp).size / 16 + 1) dp name 0 s h) (λ _. panics)

  find_slot-KeptWith :
      (k dp off : ℕ) (s : Fs) → Kept V s → Ensures (KeptWith V) (find_slot k dp off s)
  unfolding find_slot
  find_slot-KeptWith zero dp off s h = returns h
  find_slot-KeptWith (suc k) dp off s h =
      Ensures-bool (ltb off (rounds (s.inode dp).size))
        (λ _. Ensures->>= (read_dirent-KeptWith "dirlink read" dp off s h) (λ de h'.
          Ensures-bool (dirent_inum de.0 == 0) (λ _. returns h')
            (λ _. find_slot-KeptWith k dp (off + 16) de.1 h')))
        (λ _. returns h)

  pub dirlink-KeptWith :
      (dp : ℕ) (name : ℕ → ℕ) (inum : ℕ) (s : Fs)
      → Kept V s
      → Ensures (KeptWith V) (dirlink dp name inum s)
  unfolding dirlink
  dirlink-KeptWith dp name inum s h = Ensures->>= (dirlookup-KeptWith dp name s h) (λ f h'.
      Ensures-option f.0
        (λ _. Ensures->>= (find_slot-KeptWith ((f.1.inode dp).size / 16 + 1) dp 0 f.1 h') (λ o k.
          Ensures->>= (writei-KeptWith V dp (dirent_bytes inum name) o.0 16 o.1 k) (λ w k'.
            Ensures-option w.0 (λ _. panics)
              (λ n _. Ensures-if (n == 16) (λ _. returns k') (λ _. panics)))))
        (λ r _. Ensures->>= (iput-Kept V r.0 f.1 h') (λ t k. returns k)))

  namex_from-KeptWith :
      (k : ℕ) (parent : Bool) (path : List ℕ) (name : ℕ → ℕ) (i : ℕ) (s : Fs)
      → Kept V s
      → Ensures (KeptWith V) (namex_from k parent path name i s)
  unfolding namex_from
  namex_from-KeptWith zero parent path name i s h = returns h
  namex_from-KeptWith (suc k) parent path name i s h =
      Ensures-option (skipelem path name)
        (λ _.
          Ensures-if parent (λ _. Ensures->>= (iput-Kept V i s h) (λ t h'. returns h'))
            (λ _. returns h))
        (λ r _. Ensures->>= (ilock-Kept V i s h) (λ t h'.
          Ensures-bool ((t.inode i).kind == 1)
            (λ _.
              Ensures-bool (parent && is_end r.0)
                (λ _. Ensures->>= (iunlock-Kept V i t h') (λ u z. returns z))
                (λ _. Ensures->>= (dirlookup-KeptWith i r.1 t h') (λ d z.
                  Ensures-option d.0
                    (λ _. Ensures->>= (iunlockput-Kept V i d.1 z) (λ u y. returns y))
                    (λ n _.
                      Ensures->>= (iunlockput-Kept V i d.1 z)
                        (λ u y. namex_from-KeptWith k parent r.0 r.1 n.0 u y)))))
            (λ _. Ensures->>= (iunlockput-Kept V i t h') (λ u z. returns z))))

  namex-KeptWith :
      (parent : Bool) (path : List ℕ) (name : ℕ → ℕ) (s : Fs)
      → Kept V s
      → Ensures (KeptWith V) (namex parent path name s)
  unfolding namex
  namex-KeptWith parent path name s h =
      Ensures->>= (iget-KeptWith V 0 1 s h)
        (λ r k. namex_from-KeptWith (length path + 1) parent path name r.0 r.1 k)

  pub namei-KeptWith :
      (path : List ℕ) (name : ℕ → ℕ) (s : Fs) → Kept V s → Ensures (KeptWith V) (namei path name s)
  unfolding namei
  namei-KeptWith path name s h = namex-KeptWith false path name s h

  pub nameiparent-KeptWith :
      (path : List ℕ) (name : ℕ → ℕ) (s : Fs)
      → Kept V s
      → Ensures (KeptWith V) (nameiparent path name s)
  unfolding nameiparent
  nameiparent-KeptWith path name s h = namex-KeptWith true path name s h

  close_last-Kept : (i : ℕ) (s : Files) → Kept V s.fs → Ensures (λ t. Kept V t.fs) (close_last i s)
  unfolding close_last
  close_last-Kept i s h = by_kind (s.file i).kind
    where
      by_kind :
          (t : FileType)
          → Ensures
              (λ t. Kept V t.fs)
              (elim t [
                | fd_inode ↦ iput (s.file i).ip s.fs >>= λ t.
                    done (set_file i (record (s.file i) { kind = fd_none }) (record s { fs = t }))
                | _ ↦ done (set_file i (record (s.file i) { kind = fd_none }) s)
              ])
      by_kind fd_inode = Ensures->>= (iput-Kept V (s.file i).ip s.fs h) (λ t k. returns k)
      by_kind fd_none = returns h
      by_kind fd_device = returns h

  pub fileclose-Kept :
      (i : ℕ) (s : Files) → Kept V s.fs → Ensures (λ t. Kept V t.fs) (fileclose i s)
  unfolding fileclose
  fileclose-Kept i s h =
      Ensures-if (slt (s.file i).ref 1) (λ _. panics)
        (λ _.
          let t = set_file i (record (s.file i) { ref = dec32 (s.file i).ref }) s in
          Ensures-if (slt 0 (t.file i).ref) (λ _. returns h) (λ _. close_last-Kept i t h))

  abbrev pub KeptFiles {ℓ} : {A : Type ℓ} → A × Files → Type 0
  KeptFiles r = Kept V r.1.fs

  pub filewrite-KeptFiles :
      (i : ℕ) (src : ℕ → ℕ) (n : ℕ) (s : Files)
      → Kept V s.fs
      → Ensures KeptFiles (filewrite i src n s)
  unfolding filewrite
  filewrite-KeptFiles i src n s h =
      Ensures-if (s.file i).writable (λ _. by_kind (s.file i).kind) (λ _. returns h)
    where
      stored :
          (o : Option ℕ) (u : Fs) → Kept V u → Kept V (after_write i o (record s { fs = u })).fs
      stored none u k = k
      stored (some m) u k = k

      by_kind :
          (t : FileType)
          → Ensures KeptFiles (elim t [
            | fd_inode ↦ (do
              t ← ilock (s.file i).ip s.fs
              r ← writei (s.file i).ip src (s.file i).off n t
              u ← iunlock (s.file i).ip r.1
              done (r.0, after_write i r.0 (record s { fs = u })))
            | _ ↦ panic "filewrite"
          ])
      by_kind fd_inode = Ensures->>= (ilock-Kept V (s.file i).ip s.fs h) (λ t k.
          Ensures->>= (writei-KeptWith V (s.file i).ip src (s.file i).off n t k) (λ r k'.
            Ensures->>= (iunlock-Kept V (s.file i).ip r.1 k') (λ u z. returns (stored r.0 u z))))
      by_kind fd_none = panics
      by_kind fd_device = panics

  pub fileread-KeptFiles : (i n : ℕ) (s : Files) → Kept V s.fs → Ensures KeptFiles (fileread i n s)
  unfolding fileread
  fileread-KeptFiles i n s h =
      Ensures-if (s.file i).readable (λ _. by_kind (s.file i).kind) (λ _. returns h)
    where
      read :
          (o : Option (List ℕ)) (u : Fs)
          → Kept V u
          → Kept V (after_read i o (record s { fs = u })).fs
      read none u k = k
      read (some bs) u k = k

      by_kind :
          (t : FileType)
          → Ensures KeptFiles (elim t [
            | fd_inode ↦ (do
              t ← ilock (s.file i).ip s.fs
              r ← readi (s.file i).ip (s.file i).off n t
              u ← iunlock (s.file i).ip r.1
              done (r.0, after_read i r.0 (record s { fs = u })))
            | _ ↦ panic "fileread"
          ])
      by_kind fd_inode = Ensures->>= (ilock-Kept V (s.file i).ip s.fs h) (λ t k.
          Ensures->>= (readi-KeptWith V (s.file i).ip (s.file i).off n t k) (λ r k'.
            Ensures->>= (iunlock-Kept V (s.file i).ip r.1 k') (λ u z. returns (read r.0 u z))))
      by_kind fd_none = panics
      by_kind fd_device = panics
