-- ===== src/System/Idle/Bounds.antt =====
-- kernel/sysproc.c: how much `sys_read` reads.
use riscvos.Common.{
  ℕ, zero, suc, ◌+◌, ◌-◌, ◌*◌, ◌/◌, ◌^◌, ◌<◌, ◌≤◌, ◌≡◌, refl, subst, ◌⊎◌, inl, inr, false, Option,
  none, some, List, length, get_or, ◌==◌, ltb, arith,
}
use riscvos.Common.Outcome.{
  done, panic, ◌>>=◌, Ensures, returns, panics, Ensures-when, Ensures->>=, Ensures-if, Ensures-bool,
  Ensures-option,
}
use riscvos.Common.Word.{slt, add64}
use riscvos.Memory.Vm.{copyout}
use riscvos.FileSystem.{Fs}
use riscvos.FileSystem.Inodes.{ilock, iunlock}
use riscvos.FileSystem.Content.{readi, bad_range, clamp}
use riscvos.FileSystem.Content.Reading.{readi-clamp}
use riscvos.FileSystem.File.{Files, FileType, fd_none, fd_inode, fd_device, fileread, after_read}
use riscvos.FileSystem.Transactions.{ilock-Kept, iunlock-Kept}
use riscvos.FileSystem.Transactions.Contents.{readi-KeptWith}
use riscvos.System.{Kernel, with_files, with_table, minus_one, proc_of, argint, argaddr, file_of}
use riscvos.System.Transfer.{at_most, read_loop, sys_read}
use riscvos.System.Idle.Whole.{left_512}
use riscvos.System.Idle.{idle_law, IdleFs, IdleKernel}

-- At most `n` bytes, over an idle log.
abbrev IsShort : ℕ → Option (List ℕ) × Fs → Type 0
IsShort n (none, s) = IdleFs s
IsShort n (some bs, s) = (length bs ≤ n) × IdleFs s

clamp_small : (size off n : ℕ) → bad_range size off n ≡ false → clamp size off n ≤ n
clamp_small size off n h = ground arith

readi-IsShort : (i off n : ℕ) (s : Fs) → IdleFs s → Ensures (IsShort n) (readi i off n s)
readi-IsShort i off n s h =
    Ensures-when (readi-KeptWith idle_law i off n s h) (λ r k e. by_result r.0 r.1 k e)
  where
    by_result :
        (o : Option (List ℕ)) (t : Fs) → IdleFs t → readi i off n s ≡ done (o, t) → IsShort n (o, t)
    by_result none t k e = k
    by_result (some bs) t k e = elim (readi-clamp i off n s t (some bs) e) [
      | inl (z, bad) ↦ cc
      | inr (cs, z, good, size) ↦
          let same : bs ≡ cs = cc in (rw (same, size) (clamp_small (s.inode i).size off n good), k)
    ]

-- The same of an open file.
abbrev IsShortFile : ℕ → Option (List ℕ) × Files → Type 0
IsShortFile n (o, s) = IsShort n (o, s.fs)

fileread-IsShort : (f n : ℕ) (s : Files) → IdleFs s.fs → Ensures (IsShortFile n) (fileread f n s)
unfolding fileread
fileread-IsShort f n s h =
    Ensures-if (s.file f).readable (λ _. by_kind (s.file f).kind) (λ _. returns h)
  where
    read :
        (o : Option (List ℕ)) (t u : Fs)
        → IsShort n (o, t)
        → IdleFs u
        → IsShortFile n (o, after_read f o (record s { fs = u }))
    read none t u q k = k
    read (some bs) t u q k = (q.0, k)

    idle_read : (o : Option (List ℕ)) (t : Fs) → IsShort n (o, t) → IdleFs t
    idle_read none t q = q
    idle_read (some bs) t q = q.1

    by_kind :
        (t : FileType)
        → Ensures (IsShortFile n) (elim t [
          | fd_inode ↦ (do
            t ← ilock (s.file f).ip s.fs
            r ← readi (s.file f).ip (s.file f).off n t
            u ← iunlock (s.file f).ip r.1
            done (r.0, after_read f r.0 (record s { fs = u })))
          | _ ↦ panic "fileread"
        ])
    by_kind fd_inode = Ensures->>= (ilock-Kept idle_law (s.file f).ip s.fs h) (λ t k.
        Ensures->>= (readi-IsShort (s.file f).ip (s.file f).off n t k) (λ r q.
          Ensures->>= (iunlock-Kept idle_law (s.file f).ip r.1 (idle_read r.0 r.1 q))
            (λ u z. returns (read r.0 r.1 u q z))))
    by_kind fd_none = panics
    by_kind fd_device = panics

-- The result of a call that was asked for `n` bytes.
abbrev pub Counts : ℕ → ℕ × Kernel → Type 0
Counts n r = (r.0 ≡ minus_one) ⊎ (r.0 ≤ n)

bytes_of :
    (n : ℕ) (o : Option (List ℕ)) (s : Files) (bs : List ℕ)
    → IsShortFile n (o, s)
    → o ≡ some bs
    → (length bs ≤ n) × IdleFs s.fs
bytes_of n none s bs q e = cc
bytes_of n (some cs) s bs q e = let same : cs ≡ bs = cc in (subst (λ x. length x ≤ n) same q.0, q.1)

read_loop-Counts :
    (j i f addr n total limit : ℕ) (k : Kernel)
    → n < 2 ^ 31
    → total + n ≤ limit
    → n + 512 ≤ j * 512
    → IdleKernel k
    → Ensures (Counts limit) (read_loop j i f addr n total k)
unfolding read_loop
read_loop-Counts zero i f addr n total limit k small le fuel h = absurd (omega arith)
read_loop-Counts (suc j) i f addr n total limit k small le fuel h =
    Ensures-bool (slt 0 n)
      (λ pos. Ensures->>= (fileread-IsShort f (at_most 512 n) k.files h) (λ r q.
        Ensures-option r.0 (λ _. returns (inr (omega (arith, le))))
          (λ bs e.
            let short = bytes_of (at_most 512 n) r.0 r.1 bs q e in
            let fits : length bs ≤ n = ground (arith, short.0, small) in
            Ensures-bool (length bs == 0) (λ _. returns (inr (omega (arith, le))))
              (λ _.
                let c =
                  copyout (proc_of i k).pagetable addr (λ x. get_or bs x 0) (length bs)
                    k.table.ram in
                let k' : Kernel = with_table (record k.table { ram = c.1 }) (with_files r.1 k) in
                Ensures-bool c.0
                  (λ _.
                    Ensures-bool (ltb (length bs) (at_most 512 n))
                      (λ _. returns (inr (omega (arith, fits, le))))
                      (λ full.
                        read_loop-Counts j i f (add64 addr (length bs)) (n - length bs)
                          (total + length bs) limit k' (omega (arith, small))
                          (omega (arith, fits, le))
                          (left_512 j n (length bs) pos (ground arith) fuel) short.1))
                  (λ _. returns (inl refl))))))
      (λ _. returns (inr (omega (arith, le))))

-- `sys_read` on an idle log does not wait for ever, and a count that it returns is -1 or at most the number of bytes that the
-- process asked for.
pub sys_read-Counts :
    (i : ℕ) (k : Kernel) → IdleKernel k → Ensures (Counts (argint 2 i k)) (sys_read i k)
unfolding sys_read
sys_read-Counts i k h =
    Ensures-if (slt (argint 2 i k) 0) (λ _. returns (inl refl))
      (λ pos.
        Ensures-if (argint 0 i k == 0) (λ _. returns (inr (omega arith)))
          (λ _.
            Ensures-option (file_of (argint 0 i k) (proc_of i k)) (λ _. returns (inl refl))
              (λ f _.
                read_loop-Counts (argint 2 i k / 512 + 2) i f (argaddr 1 i k) (argint 2 i k) 0
                  (argint 2 i k) k (ground (arith, pos)) (omega arith) (omega arith) h)))
