-- ===== src/FileSystem/Transactions.antt =====
-- kernel/fs.c on the log: no operation on blocks, inodes or directories changes the log but by `log_write`.
pub mod Contents
pub mod Names
use riscvos.Common.{
  ℕ, zero, suc, ◌+◌, ◌-◌, ◌*◌, ◌/◌, ◌%◌, ◌<◌, ◌≤◌, ◌≡◌, refl, sym, subst, arith, Bool, true, false,
  Option, none, some, List, [], ◌∷◌, not, ◌==◌, ◌&&◌, ltb, if◌then◌else◌,
}
use riscvos.Common.Outcome.{
  Outcome, done, ◌>>=◌, Ensures, returns, panics, Ensures->>=, Ensures-if, Ensures-bool,
  Ensures-option,
}
use riscvos.Common.Word.{rounds, slt, sub32}
use riscvos.Storage.Log.Phase.{bread-Settles, acquire_log-locked}
use riscvos.Storage.Log.{Log, Store, acquire_log, release_log, log_block, log_write}
use riscvos.Storage.Bytes.{get_word, put_word}
use riscvos.FileSystem.{
  Fs, Inode, ninode, ndirect, nindirect, bsize, bpb, bblock, iblock, get_block, release, log_buffer,
  contents, set_contents, set_inode,
}
use riscvos.FileSystem.Blocks.{
  free_bit, take_block, balloc_from, balloc, bfree, is_used, mark, unmark,
}
use riscvos.FileSystem.Inodes.{
  find_inode, find_empty, iget, ilock, iunlock, iupdate, iput, iunlockput, ialloc_from, ialloc,
  get_half, dinode_at, dinode_of, fresh,
}

-- The log behind a `log_write` of block `b` that returns.
abbrev pub with_block : Log → ℕ → Log
with_block l b = release_log (log_block (record l { lock = true }) b)

negated_test : (b : Bool) → not b ≡ false → b ≡ true
negated_test true h = refl
negated_test false h = cc

-- A property of the log that `log_write` keeps.
pub record LogLaw : Type 1 where
  pub Holds : Log → Type 0
  pub free : (l : Log) → Holds l → l.lock ≡ false
  pub keep :
      (l : Log) (b : ℕ)
      → slt l.n (sub32 l.size 1) ≡ true
      → slt l.outstanding 1 ≡ false
      → Holds l
      → Holds (with_block l b)

module _ (V : LogLaw) where
  abbrev pub Kept : Fs → Type 0
  Kept s = V.Holds s.store.log

  abbrev pub KeptWith {ℓ} : {A : Type ℓ} → A × Fs → Type 0
  KeptWith r = V.Holds r.1.store.log

  pub get_block-KeptWith : (dev n : ℕ) (s : Fs) → Kept s → Ensures KeptWith (get_block dev n s)
  get_block-KeptWith dev n s h = Ensures->>= (bread-Settles dev n s.store.cache) (λ r _. returns h)

  -- A block is read without a change of the superblock.
  get_block-same :
      (dev n : ℕ) (s : Fs)
      → Kept s
      → Ensures (λ r. (V.Holds r.1.store.log) × (r.1.sb ≡ s.sb)) (get_block dev n s)
  get_block-same dev n s h =
      Ensures->>= (bread-Settles dev n s.store.cache) (λ r _. returns (h, refl))

  log_write-kept :
      (p : ℕ) (s : Store) → V.Holds s.log → Ensures (λ t. V.Holds t.log) (log_write p s)
  unfolding log_write
  log_write-kept p s h = Ensures->>= (acquire_log-locked s.log (V.free s.log h)) (λ l e.
      Ensures-if (not (slt l.n (sub32 l.size 1))) (λ _. panics)
        (λ room.
          Ensures-if (slt l.outstanding 1) (λ _. panics)
            (λ in_op. returns (
              subst (λ m. V.Holds (release_log (log_block m (s.cache.buf p).blockno))) (sym e)
                (V.keep s.log (s.cache.buf p).blockno (has_room l e room)
                  (subst (λ m. slt m.outstanding 1 ≡ false) e in_op) h)))))
    where
      has_room :
          (l : Log)
          → l ≡ record s.log { lock = true }
          → not (slt l.n (sub32 l.size 1)) ≡ false
          → slt s.log.n (sub32 s.log.size 1) ≡ true
      has_room l e r = negated_test _ (subst (λ m. not (slt m.n (sub32 m.size 1)) ≡ false) e r)

  pub log_buffer-Kept : (p : ℕ) (s : Fs) → Kept s → Ensures Kept (log_buffer p s)
  log_buffer-Kept p s h = Ensures->>= (log_write-kept p s.store h) (λ t k. returns k)

  take_block-KeptWith :
      (dev b bi p : ℕ) (s : Fs) → Kept s → Ensures KeptWith (take_block dev b bi p s)
  unfolding take_block
  take_block-KeptWith dev b bi p s h =
      Ensures->>= (log_buffer-Kept p (set_contents p (mark (contents p s) bi) s) h) (λ t k.
        Ensures->>= (get_block-KeptWith dev (b + bi) (release p t) k) (λ bp k'.
          Ensures->>= (log_buffer-Kept bp.0 (set_contents bp.0 (λ i. 0) bp.1) k')
            (λ u k''. returns k'')))

  balloc_from-KeptWith :
      (k dev b : ℕ) (s : Fs)
      → Kept s
      → (1 ≤ k) × (rounds s.sb.size + bpb ≤ b + k * bpb)
      → Ensures KeptWith (balloc_from k dev b s)
  unfolding balloc_from
  balloc_from-KeptWith zero dev b s h fuel = absurd (omega (arith, fuel))
  balloc_from-KeptWith (suc k) dev b s h fuel =
      Ensures-bool (ltb b (rounds s.sb.size))
        (λ on. Ensures->>= (get_block-same dev (bblock b s.sb) s h) (λ bp (h', same).
          Ensures-option (free_bit (contents bp.0 bp.1) (rounds s.sb.size) b bpb 0)
            (λ _. balloc_from-KeptWith k dev (b + bpb) (release bp.0 bp.1) h' (
              subst (λ q. (1 ≤ k) × (rounds q.size + bpb ≤ b + bpb + k * bpb)) (sym same)
                (left k b (rounds s.sb.size) on fuel)))
            (λ bi _. take_block-KeptWith dev b bi bp.0 bp.1 h')))
        (λ _. panics)
    where
      left :
          (k b n : ℕ)
          → ltb b n ≡ true
          → (1 ≤ suc k) × (n + bpb ≤ b + suc k * bpb)
          → (1 ≤ k) × (n + bpb ≤ b + bpb + k * bpb)
      left k b n on fuel =
          let lt : b < n = ground arith in (omega (arith, fuel, lt), omega (arith, fuel))

  pub balloc-KeptWith : (dev : ℕ) (s : Fs) → Kept s → Ensures KeptWith (balloc dev s)
  unfolding balloc
  balloc-KeptWith dev s h =
      balloc_from-KeptWith (rounds s.sb.size / bpb + 2) dev 0 s h (omega arith, omega arith)

  pub bfree-Kept : (dev b : ℕ) (s : Fs) → Kept s → Ensures Kept (bfree dev b s)
  unfolding bfree
  bfree-Kept dev b s h = Ensures->>= (get_block-KeptWith dev (bblock b s.sb) s h) (λ bp h'.
      Ensures-bool (is_used (contents bp.0 bp.1) (b % bpb))
        (λ _.
          Ensures->>=
            (log_buffer-Kept bp.0 (set_contents bp.0 (unmark (contents bp.0 bp.1) (b % bpb)) bp.1)
              h')
            (λ t k. returns k))
        (λ _. panics))

  pub iget-KeptWith : (dev inum : ℕ) (s : Fs) → Kept s → Ensures KeptWith (iget dev inum s)
  unfolding iget
  iget-KeptWith dev inum s h =
      Ensures-option (find_inode dev inum s.inode ninode 0)
        (λ _. Ensures-option (find_empty s.inode ninode 0) (λ _. panics) (λ i _. returns h))
        (λ i _. returns h)

  pub ilock-Kept : (i : ℕ) (s : Fs) → Kept s → Ensures Kept (ilock i s)
  unfolding ilock
  ilock-Kept i s h =
      Ensures-if (slt (s.inode i).ref 1) (λ _. panics)
        (λ _.
          Ensures-if (s.inode i).valid (λ _. returns h)
            (λ _.
              Ensures->>= (get_block-KeptWith (s.inode i).dev (iblock (s.inode i).inum s.sb) s h)
                (λ bp h'.
                  Ensures-if (get_half (contents bp.0 bp.1) (dinode_at (s.inode i).inum) == 0)
                    (λ _. panics) (λ _. returns h'))))

  pub iunlock-Kept : (i : ℕ) (s : Fs) → Kept s → Ensures Kept (iunlock i s)
  unfolding iunlock
  iunlock-Kept i s h = Ensures-if (slt (s.inode i).ref 1) (λ _. panics) (λ _. returns h)

  pub iupdate-Kept : (i : ℕ) (s : Fs) → Kept s → Ensures Kept (iupdate i s)
  unfolding iupdate
  iupdate-Kept i s h =
      Ensures->>= (get_block-KeptWith (s.inode i).dev (iblock (s.inode i).inum s.sb) s h) (λ bp h'.
        Ensures->>=
          (log_buffer-Kept bp.0
            (set_contents bp.0 (dinode_of (s.inode i) (contents bp.0 bp.1)) bp.1) h')
          (λ t k. returns k))

  pub iput-Kept : (i : ℕ) (s : Fs) → Kept s → Ensures Kept (iput i s)
  unfolding iput
  iput-Kept i s h =
      Ensures-if ((s.inode i).ref == 1 && ((s.inode i).valid && (s.inode i).nlink == 0))
        (λ _.
          Ensures->>= (iupdate-Kept i (set_inode i (record (s.inode i) { kind = 0 }) s) h)
            (λ t k. returns k))
        (λ _. returns h)

  pub iunlockput-Kept : (i : ℕ) (s : Fs) → Kept s → Ensures Kept (iunlockput i s)
  unfolding iunlockput
  iunlockput-Kept i s h = Ensures->>= (iunlock-Kept i s h) (λ t k. iput-Kept i t k)

  ialloc_from-KeptWith :
      (k dev kind inum : ℕ) (s : Fs) → Kept s → Ensures KeptWith (ialloc_from k dev kind inum s)
  unfolding ialloc_from
  ialloc_from-KeptWith zero dev kind inum s h = panics
  ialloc_from-KeptWith (suc k) dev kind inum s h =
      Ensures->>= (get_block-KeptWith dev (iblock inum s.sb) s h) (λ bp h'.
        Ensures-bool (get_half (contents bp.0 bp.1) (dinode_at inum) == 0)
          (λ _.
            Ensures->>=
              (log_buffer-Kept bp.0
                (set_contents bp.0 (fresh (dinode_at inum) kind (contents bp.0 bp.1)) bp.1) h')
              (λ t k'. iget-KeptWith dev inum (release bp.0 t) k'))
          (λ _. ialloc_from-KeptWith k dev kind (inum + 1) (release bp.0 bp.1) h'))

  pub ialloc-KeptWith : (dev kind : ℕ) (s : Fs) → Kept s → Ensures KeptWith (ialloc dev kind s)
  unfolding ialloc
  ialloc-KeptWith dev kind s h = ialloc_from-KeptWith (rounds s.sb.ninodes - 1) dev kind 1 s h
