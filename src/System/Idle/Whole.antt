-- ===== src/System/Idle/Whole.antt =====
-- kernel/file.c and kernel/sysfile.c: a write that succeeds takes all of its bytes, and what a round of a loop leaves.
use riscvos.Common.{
  ℕ, suc, ◌+◌, ◌-◌, ◌*◌, ◌/◌, ◌≤◌, ◌≡◌, arith, inl, inr, true, Option, none, some, ◌==◌,
  if◌then◌else◌, Bool-cases, if_true, if_false,
}
use riscvos.Common.Outcome.{Outcome, done, panic, >>=-eq-done, ◌>>=◌}
use riscvos.Common.Word.{slt}
use riscvos.FileSystem.{Fs, bsize}
use riscvos.FileSystem.Inodes.{ilock, iunlock, iupdate}
use riscvos.FileSystem.Content.{bad_range, writei_from, grow, writei}
use riscvos.FileSystem.File.{Files, FileType, fd_inode, fd_none, fd_device, after_write, filewrite}
use riscvos.System.Transfer.{at_most}

-- A count is the one that was asked for.
abbrev pub Whole : ℕ → Option ℕ → Type 0
Whole n r = (w : ℕ) → r ≡ some w → w ≡ n

writei-Whole :
    (i : ℕ) (src : ℕ → ℕ) (off n : ℕ) (s : Fs) (r : Option ℕ × Fs)
    → writei i src off n s ≡ done r
    → Whole n r.0
unfolding writei
writei-Whole i src off n s r e = elim (Bool-cases (bad_range (s.inode i).size off n)) [
  | inl y ↦ failed (if_true _ _ y e)
  | inr m ↦
      let (w, e₁, e₂) =
        >>=-eq-done (writei_from (n / bsize + 2) i src 0 off n s) _ (if_false _ _ m e) in
      ended w.0 w.1 e₂
]
  where
    failed : {u : Fs} → ◌≡◌ {A = Outcome (Option ℕ × Fs)} (done (none, u)) (done r) → Whole n r.0
    failed q w e' = cc

    took : {u : Fs} → ◌≡◌ {A = Outcome (Option ℕ × Fs)} (done (some n, u)) (done r) → Whole n r.0
    took q w e' = cc

    ended :
        (o : Option ℕ) (u : Fs)
        → (elim o [
          | none ↦ done (none, u)
          | some end ↦
              if n == 0
              then done (some n, u)
              else (iupdate i (grow i end u) >>= λ t. done (some n, t))
        ])
          ≡ done r
        → Whole n r.0
    ended none u q = failed q
    ended (some end) u q = elim (Bool-cases (n == 0)) [
      | inl y ↦ took (if_true _ _ y q)
      | inr m ↦
          let (t, e₁, e₂) = >>=-eq-done (iupdate i (grow i end u)) _ (if_false _ _ m q) in took e₂
    ]

pub filewrite-Whole :
    (f : ℕ) (src : ℕ → ℕ) (n : ℕ) (s : Files) (r : Option ℕ × Files)
    → filewrite f src n s ≡ done r
    → Whole n r.0
unfolding filewrite
filewrite-Whole f src n s r e = elim (Bool-cases (s.file f).writable) [
  | inl y ↦ by_kind (s.file f).kind (if_true _ _ y e)
  | inr m ↦ failed (if_false _ _ m e)
]
  where
    failed :
        {u : Files} → ◌≡◌ {A = Outcome (Option ℕ × Files)} (done (none, u)) (done r) → Whole n r.0
    failed q w e' = cc

    same :
        {o : Option ℕ} {u : Files}
        → ◌≡◌ {A = Outcome (Option ℕ × Files)} (done (o, u)) (done r)
        → Whole n o
        → Whole n r.0
    same q h w e' = h w cc

    by_kind :
        (t : FileType)
        → (elim t [
          | fd_inode ↦ (do
            t ← ilock (s.file f).ip s.fs
            r ← writei (s.file f).ip src (s.file f).off n t
            u ← iunlock (s.file f).ip r.1
            done (r.0, after_write f r.0 (record s { fs = u })))
          | _ ↦ panic "filewrite"
        ])
          ≡ done r
        → Whole n r.0
    by_kind fd_inode q =
        let (t, e₁, q₁) = >>=-eq-done (ilock (s.file f).ip s.fs) _ q in
        let (w, e₂, q₂) = >>=-eq-done (writei (s.file f).ip src (s.file f).off n t) _ q₁ in
        let (u, e₃, q₃) = >>=-eq-done (iunlock (s.file f).ip w.1) _ q₂ in
        same q₃ (writei-Whole (s.file f).ip src (s.file f).off n t w e₂)
    by_kind fd_none q = cc
    by_kind fd_device q = cc

-- What a round that takes a full buffer leaves of the fuel.
pub left_512 :
    (j n m : ℕ) → slt 0 n ≡ true → at_most 512 n ≤ m → n + 512 ≤ suc j * 512 → n - m + 512 ≤ j * 512
left_512 j n m pos le fuel = ground arith

pub left_128 :
    (j n m : ℕ) → slt 0 n ≡ true → at_most 128 n ≤ m → n + 128 ≤ suc j * 128 → n - m + 128 ≤ j * 128
left_128 j n m pos le fuel = ground arith
