-- ===== src/FileSystem/Inodes/Reload.antt =====
-- kernel/fs.c: `iupdate` and `ilock` through the log and the cache.
use riscvos.Common.{ℕ, ◌/◌, ◌%◌, ◌≡◌, ◌≢◌, ◌∙◌, false, ap, ap₂, subst, sym, ◌==◌, update_self}
use riscvos.Common.Outcome.{Ensures, returns, panics, Ensures->>=, Ensures-if, Ensures-imp}
use riscvos.Common.Word.{slt}
use riscvos.FileSystem.{Fs, Inode, iblock, contents, set_inode, release}
use riscvos.FileSystem.Edits.{
  IsSound, seen, Edited, get_block-Looked, Looked-contents, log_buffer-Edited,
}
use riscvos.FileSystem.Inodes.{dinode_of, dinode_at, get_half, ilock, iupdate}
use riscvos.FileSystem.Inodes.Update.{Fits, SameDinode, fetched, dinode_of-fetched, dinode_of-out}

-- The block that holds an inode's dinode.
abbrev pub home : Fs → ℕ → ℕ
home s i = iblock (s.inode i).inum s.sb

pub iupdate-Edited :
    {dev : ℕ} (i : ℕ) (s : Fs)
    → IsSound dev s
    → (s.inode i).dev ≡ dev
    → home s i ≢ 0
    → Ensures
        (Edited dev (home s i) (dinode_of (s.inode i) (seen dev s (home s i))) s)
        (iupdate i s)
unfolding iupdate
iupdate-Edited {dev} i s ok d h =
    Ensures->>= (get_block-Looked ok (s.inode i).dev (home s i) d h) (λ bp k.
      Ensures->>= (log_buffer-Edited ok h (dinode_of (s.inode i) (contents bp.0 bp.1)) k) (λ t e.
        returns (
          subst (λ x. Edited dev (home s i) (dinode_of (s.inode i) x) s (release bp.0 t))
            (Looked-contents ok k) e)))

-- An inode that is not loaded is read from its block.
pub ilock-fetched :
    {dev : ℕ} (j : ℕ) (s : Fs)
    → IsSound dev s
    → (s.inode j).dev ≡ dev
    → home s j ≢ 0
    → (s.inode j).valid ≡ false
    → Ensures
        (λ u. u.inode j ≡ fetched (s.inode j).inum (seen dev s (home s j)) (s.inode j))
        (ilock j s)
unfolding ilock
ilock-fetched {dev} j s ok d h z =
    Ensures-if (slt (s.inode j).ref 1) (λ _. panics)
      (λ _.
        Ensures-if (s.inode j).valid (λ y. cc)
          (λ _. Ensures->>= (get_block-Looked ok (s.inode j).dev (home s j) d h) (λ bp k.
            Ensures-if (get_half (contents bp.0 bp.1) (dinode_at (s.inode j).inum) == 0)
              (λ _. panics)
              (λ _. returns (
                update_self bp.1.inode j (fetched (s.inode j).inum (contents bp.0 bp.1) (s.inode j))
                ∙ ap (λ x. fetched (s.inode j).inum x (s.inode j)) (Looked-contents ok k))))))

-- What `iupdate` leaves: an entry `e` at `j` that is not loaded is read as the inode was, and the rest of the disk is
-- as before.
pub record Reloaded (dev i j : ℕ) (e : Inode) (s t : Fs) : Type 0 where
  pub again : Ensures (λ u. SameDinode (u.inode j) (s.inode i)) (ilock j (set_inode j e t))
  pub neighbours :
      (k : ℕ) → k / 64 ≢ (s.inode i).inum % 16 → seen dev t (home s i) k ≡ seen dev s (home s i) k
  pub others : (m : ℕ) → m ≢ 0 → m ≢ home s i → seen dev t m ≡ seen dev s m

-- With a valid cache and one open transaction in a log whose lock is free, `iupdate` writes an inode whose fields fit into its dinode, and `ilock` of any entry for the same inode that is not loaded
-- reads the same type, numbers, links, size and addresses; the other dinodes of the block and the other blocks stay as they
-- are. Under these conditions neither call spins for ever.
pub iupdate-ilock :
    {dev : ℕ} (i j : ℕ) (e : Inode) (s : Fs)
    → IsSound dev s
    → (s.inode i).dev ≡ dev
    → home s i ≢ 0
    → Fits (s.inode i)
    → e.dev ≡ dev
    → e.inum ≡ (s.inode i).inum
    → e.valid ≡ false
    → Ensures (Reloaded dev i j e s) (iupdate i s)
iupdate-ilock {dev} i j e s ok d h f ed en ez =
    Ensures-imp (λ t w. reload t w) (iupdate-Edited i s ok d h)
  where
    reload :
        (t : Fs)
        → Edited dev (home s i) (dinode_of (s.inode i) (seen dev s (home s i))) s t
        → Reloaded dev i j e s t
    reload t w =
        let u = set_inode j e t in
        let self : u.inode j ≡ e = update_self t.inode j e in
        let inum : (u.inode j).inum ≡ (s.inode i).inum = ap (λ x. x.inum) self ∙ en in
        let place : home u j ≡ home s i = ap₂ iblock inum w.sb in
        let block : seen dev u (home u j) ≡ dinode_of (s.inode i) (seen dev s (home s i)) =
          ap (seen dev t) place ∙ w.self in
        record {
          again =
              Ensures-imp
                (λ v z.
                  subst (λ x. SameDinode x (s.inode i))
                    (sym (z ∙ ap₂ (λ n b. fetched n b (u.inode j)) inum block))
                    (dinode_of-fetched (s.inode i) (seen dev s (home s i)) (u.inode j) f))
                (ilock-fetched j u (record { valid = w.sound.valid; log = w.sound.log })
                  (ap (λ x. x.dev) self ∙ ed) (λ z. h (sym place ∙ z))
                  (ap (λ x. x.valid) self ∙ ez));
          neighbours =
              λ k ne. ap (λ b. b k) w.self ∙ dinode_of-out (s.inode i) (seen dev s (home s i)) k ne;
          others = w.others;
        }
