-- ===== src/FileSystem/Transactions/Contents.antt =====
-- kernel/fs.c on the log: reading, writing and cutting the contents of an inode.
use riscvos.Common.{
  ℕ, zero, suc, ◌+◌, ◌-◌, ◌/◌, ◌%◌, Bool, true, false, not, ◌==◌, ◌&&◌, ltb, if◌then◌else◌,
}
use riscvos.Common.Outcome.{
  done, ◌>>=◌, Ensures, returns, panics, Ensures->>=, Ensures-if, Ensures-bool, Ensures-option,
}
use riscvos.Storage.Bytes.{get_word, put_word}
use riscvos.FileSystem.{
  Fs, ndirect, nindirect, bsize, get_block, release, contents, set_contents, set_inode,
}
use riscvos.FileSystem.Blocks.{bfree}
use riscvos.FileSystem.Content.{
  addr_slot, indirect_slot, bmap, chunk, read_chunk, readi_from, bad_range, clamp, readi, patch,
  writei_from, grow, writei, free_direct, free_indirect, itrunc, set_addr,
}
use riscvos.FileSystem.Transactions.{
  LogLaw, Kept, KeptWith, get_block-KeptWith, log_buffer-Kept, balloc-KeptWith, bfree-Kept,
  iupdate-Kept,
}

module _ (V : LogLaw) where
  addr_slot-KeptWith :
      (i bn : ℕ) (c : Bool) (s : Fs) → Kept V s → Ensures (KeptWith V) (addr_slot i bn c s)
  unfolding addr_slot
  addr_slot-KeptWith i bn c s h =
      Ensures-if (not ((s.inode i).addrs bn == 0)) (λ _. returns h)
        (λ _.
          Ensures-if c (λ _. Ensures->>= (balloc-KeptWith V (s.inode i).dev s h) (λ a k. returns k))
            (λ _. returns h))

  indirect_slot-KeptWith :
      (i addr bn : ℕ) (c : Bool) (s : Fs)
      → Kept V s
      → Ensures (KeptWith V) (indirect_slot i addr bn c s)
  unfolding indirect_slot
  indirect_slot-KeptWith i addr bn c s h =
      Ensures->>= (get_block-KeptWith V (s.inode i).dev addr s h) (λ bp h'.
        Ensures-if (get_word (contents bp.0 bp.1) bn == 0 && c)
          (λ _. Ensures->>= (balloc-KeptWith V (s.inode i).dev bp.1 h') (λ r k.
            Ensures->>=
              (log_buffer-Kept V bp.0 (set_contents bp.0 (put_word bn r.0 (contents bp.0 r.1)) r.1)
                k)
              (λ t k'. returns k')))
          (λ _. returns h'))

  pub bmap-KeptWith :
      (i bn : ℕ) (c : Bool) (s : Fs) → Kept V s → Ensures (KeptWith V) (bmap i bn c s)
  unfolding bmap
  bmap-KeptWith i bn c s h =
      Ensures-if (ltb bn ndirect) (λ _. addr_slot-KeptWith i bn c s h)
        (λ _.
          Ensures-if (ltb (bn - ndirect) nindirect)
            (λ _. Ensures->>= (addr_slot-KeptWith i ndirect c s h) (λ a k.
              Ensures-if (a.0 == 0 && not c) (λ _. returns k)
                (λ _. indirect_slot-KeptWith i a.0 (bn - ndirect) c a.1 k)))
            (λ _. panics))

  read_chunk-KeptWith :
      (i off m : ℕ) (s : Fs) → Kept V s → Ensures (KeptWith V) (read_chunk i off m s)
  unfolding read_chunk
  read_chunk-KeptWith i off m s h = Ensures->>= (bmap-KeptWith i (off / bsize) false s h) (λ a k.
      Ensures-if (a.0 == 0) (λ _. returns k)
        (λ _. Ensures->>= (get_block-KeptWith V (a.1.inode i).dev a.0 a.1 k) (λ bp k'. returns k')))

  readi_from-KeptWith :
      (k i off n : ℕ) (s : Fs) → Kept V s → Ensures (KeptWith V) (readi_from k i off n s)
  unfolding readi_from
  readi_from-KeptWith zero i off n s h = returns h
  readi_from-KeptWith (suc k) i off n s h =
      Ensures-bool (n == 0) (λ _. returns h)
        (λ _. Ensures->>= (read_chunk-KeptWith i off (chunk off n) s h) (λ bs h'.
          Ensures->>= (readi_from-KeptWith k i (off + chunk off n) (n - chunk off n) bs.1 h')
            (λ rest h''. returns h'')))

  pub readi-KeptWith : (i off n : ℕ) (s : Fs) → Kept V s → Ensures (KeptWith V) (readi i off n s)
  unfolding readi
  readi-KeptWith i off n s h =
      Ensures-if (bad_range (s.inode i).size off n) (λ _. returns h)
        (λ _.
          let m = clamp (s.inode i).size off n in
          Ensures->>= (readi_from-KeptWith (m / bsize + 2) i off m s h) (λ r k. returns k))

  writei_from-KeptWith :
      (k i : ℕ) (src : ℕ → ℕ) (tot off n : ℕ) (s : Fs)
      → Kept V s
      → Ensures (KeptWith V) (writei_from k i src tot off n s)
  unfolding writei_from
  writei_from-KeptWith zero i src tot off n s h = returns h
  writei_from-KeptWith (suc k) i src tot off n s h =
      Ensures-bool (n == 0) (λ _. returns h)
        (λ _. Ensures->>= (bmap-KeptWith i (off / bsize) true s h) (λ a h'.
          Ensures-bool (a.0 == 0) (λ _. returns h')
            (λ _. Ensures->>= (get_block-KeptWith V (a.1.inode i).dev a.0 a.1 h') (λ bp h''.
              Ensures->>=
                (log_buffer-Kept V bp.0
                  (set_contents bp.0
                    (patch (contents bp.0 bp.1) (off % bsize) (chunk off n) src tot) bp.1)
                  h'')
                (λ t z.
                  writei_from-KeptWith k i src (tot + chunk off n) (off + chunk off n)
                    (n - chunk off n) (release bp.0 t) z)))))

  grow-Kept : (i off : ℕ) (s : Fs) → Kept V s → Kept V (grow i off s)
  unfolding grow
  grow-Kept i off s h = go (ltb (s.inode i).size off)
    where
      go : (b : Bool) → Kept V (if b then set_inode i (record (s.inode i) { size = off }) s else s)
      go true = h
      go false = h

  pub writei-KeptWith :
      (i : ℕ) (src : ℕ → ℕ) (off n : ℕ) (s : Fs)
      → Kept V s
      → Ensures (KeptWith V) (writei i src off n s)
  unfolding writei
  writei-KeptWith i src off n s h =
      Ensures-if (bad_range (s.inode i).size off n) (λ _. returns h)
        (λ _. Ensures->>= (writei_from-KeptWith (n / bsize + 2) i src 0 off n s h) (λ r h'.
          Ensures-option r.0 (λ _. returns h')
            (λ end _.
              Ensures-if (n == 0) (λ _. returns h')
                (λ _.
                  Ensures->>= (iupdate-Kept V i (grow i end r.1) (grow-Kept i end r.1 h'))
                    (λ t k. returns k)))))

  free_direct-Kept : (k i bn : ℕ) (s : Fs) → Kept V s → Ensures (Kept V) (free_direct k i bn s)
  unfolding free_direct
  free_direct-Kept zero i bn s h = returns h
  free_direct-Kept (suc k) i bn s h =
      Ensures-bool ((s.inode i).addrs bn == 0) (λ _. free_direct-Kept k i (bn + 1) s h)
        (λ _.
          Ensures->>= (bfree-Kept V (s.inode i).dev ((s.inode i).addrs bn) s h)
            (λ t h'. free_direct-Kept k i (bn + 1) (set_addr i bn 0 t) h'))

  free_indirect-Kept :
      (k i p j : ℕ) (s : Fs) → Kept V s → Ensures (Kept V) (free_indirect k i p j s)
  unfolding free_indirect
  free_indirect-Kept zero i p j s h = returns h
  free_indirect-Kept (suc k) i p j s h =
      Ensures-bool (get_word (contents p s) j == 0) (λ _. free_indirect-Kept k i p (j + 1) s h)
        (λ _.
          Ensures->>= (bfree-Kept V (s.inode i).dev (get_word (contents p s) j) s h)
            (λ t h'. free_indirect-Kept k i p (j + 1) t h'))

  pub itrunc-Kept : (i : ℕ) (s : Fs) → Kept V s → Ensures (Kept V) (itrunc i s)
  unfolding itrunc
  itrunc-Kept i s h = Ensures->>= (free_direct-Kept ndirect i 0 s h) (λ t h'.
      Ensures->>= (indirect t h')
        (λ u z. iupdate-Kept V i (set_inode i (record (u.inode i) { size = 0 }) u) z))
    where
      indirect :
          (t : Fs)
          → Kept V t
          → Ensures (Kept V) (
              if (t.inode i).addrs ndirect == 0 then done t else (do
                bp ← get_block (t.inode i).dev ((t.inode i).addrs ndirect) t
                v ← free_indirect nindirect i bp.0 0 bp.1
                w ← bfree (v.inode i).dev ((v.inode i).addrs ndirect) (release bp.0 v)
                done (set_addr i ndirect 0 w)))
      indirect t h' =
          Ensures-if ((t.inode i).addrs ndirect == 0) (λ _. returns h')
            (λ _.
              Ensures->>= (get_block-KeptWith V (t.inode i).dev ((t.inode i).addrs ndirect) t h')
                (λ bp k. Ensures->>= (free_indirect-Kept nindirect i bp.0 0 bp.1 k) (λ v k'.
                  Ensures->>=
                    (bfree-Kept V (v.inode i).dev ((v.inode i).addrs ndirect) (release bp.0 v) k')
                    (λ w k''. returns k''))))
