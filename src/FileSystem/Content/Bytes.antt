-- ===== src/FileSystem/Content/Bytes.antt =====
-- kernel/fs.c: a file in its direct blocks as an array of bytes, and `readi` of it.
use riscvos.Common.{
  ℕ, zero, suc, ◌+◌, ◌-◌, ◌*◌, ◌/◌, ◌%◌, ◌^◌, ◌<◌, ◌≤◌, ◌≡◌, refl, ◌≢◌, ◌∙◌, ◌⊎◌, inr, sym, ap, ap₂,
  arith, false, Option, some, List, [], ◌∷◌, ◌++◌, ltb, ◌==◌, not, if◌then◌else◌, if_then, if_else,
}
use riscvos.Common.Outcome.{Ensures, returns, Ensures->>=, Ensures-if, Ensures-bool}
use riscvos.Storage.Bio.{Block}
use riscvos.FileSystem.{Fs, bsize, ndirect, contents}
use riscvos.FileSystem.Edits.{
  IsSound, IsSame, seen, get_block-Looked, Looked-contents, release-IsSame, IsSame-refl,
  IsSame-trans,
}
use riscvos.FileSystem.Content.{
  addr_slot, bmap, chunk, slice, read_chunk, readi_from, bad_range, clamp, readi,
}
use riscvos.FileSystem.Content.Reading.{chunk_left, chunk_le}

-- What the direct blocks hold.
abbrev pub capacity : ℕ
capacity = 12288

-- A byte of a block that may not be there.
abbrev pub held : (ℕ → Block) → ℕ → ℕ → ℕ
held f a o = if a == 0 then 0 else f a o

pub held-same : (f g : ℕ → Block) (a o : ℕ) → (a ≢ 0 → f a ≡ g a) → held f a o ≡ held g a o
held-same f g zero o h = refl
held-same f g (suc a) o h = ap (λ b. held (λ _. b) (suc a) o) (h (λ z. omega (arith, z)))

pub held-some : (f : ℕ → Block) (a o : ℕ) → a ≢ 0 → held f a o ≡ f a o
held-some f a o h = ground arith

-- Byte `j` of the file: a block that is not there reads as zeroes.
unfoldable pub byte_at : ℕ → ℕ → Fs → ℕ → ℕ
byte_at dev i s j = held (seen dev s) ((s.inode i).addrs (j / bsize)) (j % bsize)

slice-nil : (o n : ℕ) (f : ℕ → ℕ) → n ≡ 0 → [] ≡ slice f o n
slice-nil o n f z = ap (slice f o) (sym z)

pub slice-ext :
    (m o p : ℕ) (f g : ℕ → ℕ)
    → ((j : ℕ) → j < m → f (o + j) ≡ g (p + j))
    → slice f o m ≡ slice g p m
slice-ext zero o p f g h = refl
slice-ext (suc m) o p f g h =
    ap₂ (λ x xs. x ∷ xs) (ap f (omega arith) ∙ h 0 (omega arith) ∙ ap g (omega arith))
      (slice-ext m (o + 1) (p + 1) f g
        (λ j lt. ap f (omega arith) ∙ h (j + 1) (omega arith) ∙ ap g (omega arith)))

suc-add : (m n : ℕ) → suc (m + n) ≡ suc m + n
suc-add m n = omega arith

slice-append : (m n o : ℕ) (f : ℕ → ℕ) → slice f o m ++ slice f (o + m) n ≡ slice f o (m + n)
slice-append zero n o f = ap₂ (λ x y. slice f x y) (omega arith) (omega arith)
slice-append (suc m) n o f =
    ap (λ xs. f o ∷ xs)
      (ap (λ k. slice f (o + 1) m ++ slice f k n) (omega arith) ∙ slice-append m n (o + 1) f)
    ∙ ap (slice f o) (suc-add m n)

module _ (dev i : ℕ) where
  bmap-IsSame :
      (bn : ℕ) (s : Fs)
      → IsSound dev s
      → bn < ndirect
      → Ensures (λ a. (a.0 ≡ (s.inode i).addrs bn) × IsSame dev s a.1) (bmap i bn false s)
  unfolding bmap addr_slot
  bmap-IsSame bn s ok h =
      Ensures-if (ltb bn ndirect)
        (λ _.
          Ensures-if (not ((s.inode i).addrs bn == 0)) (λ _. returns (refl, IsSame-refl ok))
            (λ z. returns (ground arith, IsSame-refl ok)))
        (λ z. absurd (ground arith))

  -- The bytes of one round lie in one block.
  byte_at-block :
      (off m j : ℕ) (s : Fs)
      → off % bsize + m ≤ bsize
      → j < m
      → byte_at dev i s (off + j) ≡ (
          if (s.inode i).addrs (off / bsize) == 0
          then 0
          else seen dev s ((s.inode i).addrs (off / bsize)) (off % bsize + j))
  unfolding byte_at
  byte_at-block off m j s fits lt =
      ap₂ (λ q r. if (s.inode i).addrs q == 0 then 0 else seen dev s ((s.inode i).addrs q) r)
        (omega arith) (omega arith)

  no_block :
      (off m : ℕ) (s : Fs)
      → off % bsize + m ≤ bsize
      → (s.inode i).addrs (off / bsize) ≡ 0
      → slice (λ j. 0) 0 m ≡ slice (byte_at dev i s) off m
  no_block off m s fits z =
      slice-ext m 0 off (λ j. 0) (byte_at dev i s)
        (λ j lt. sym (
          byte_at-block off m j s fits lt
          ∙ if_then ((s.inode i).addrs (off / bsize) == 0) 0 _ (ground arith)))

  in_block :
      (off m : ℕ) (s : Fs)
      → off % bsize + m ≤ bsize
      → (a : ℕ) (b : Block) → a ≡ (s.inode i).addrs (off / bsize)
      → a ≢ 0
      → b ≡ seen dev s a
      → slice b (off % bsize) m ≡ slice (byte_at dev i s) off m
  in_block off m s fits a b e nz same = slice-ext m (off % bsize) off b (byte_at dev i s) (λ j lt.
      ap (λ x. x (off % bsize + j)) (same ∙ ap (seen dev s) e)
      ∙ sym (
          byte_at-block off m j s fits lt
          ∙ if_else ((s.inode i).addrs (off / bsize) == 0) 0 _ (ground arith)))

  read_chunk-bytes :
      (off m : ℕ) (s t : Fs)
      → IsSame dev s t
      → (s.inode i).dev ≡ dev
      → off / bsize < ndirect
      → off % bsize + m ≤ bsize
      → Ensures {A = List ℕ × Fs}
          (λ r. (r.0 ≡ slice (byte_at dev i s) off m) × IsSame dev s r.1)
          (read_chunk i off m t)
  unfolding read_chunk
  read_chunk-bytes off m s t p d bn fits =
      Ensures->>= (bmap-IsSame (off / bsize) t p.sound bn) (λ a (e, q).
        let addr : a.0 ≡ (s.inode i).addrs (off / bsize) =
          e ∙ ap (λ f. (f i).addrs (off / bsize)) p.inode in
        let whole : IsSame dev s a.1 = IsSame-trans p q in
        Ensures-if (a.0 == 0) (λ z. returns (no_block off m s fits (ground arith), whole))
          (λ nz.
            Ensures->>=
              (get_block-Looked q.sound (a.1.inode i).dev a.0 (ap (λ f. (f i).dev) whole.inode ∙ d)
                (ground arith))
              (λ bp k. returns (
                in_block off m s fits a.0 (contents bp.0 bp.1) addr (ground arith)
                    (Looked-contents q.sound k ∙ whole.blocks a.0 (ground arith)),
                IsSame-trans whole (release-IsSame q.sound k),
              ))))

  -- The rounds of `readi` give the bytes of the file.
  readi_from-bytes :
      (k off n : ℕ) (s t : Fs)
      → IsSame dev s t
      → (s.inode i).dev ≡ dev
      → off + n ≤ capacity
      → (n ≡ 0) ⊎ (off % bsize + n ≤ k * bsize)
      → Ensures {A = List ℕ × Fs}
          (λ r. (r.0 ≡ slice (byte_at dev i s) off n) × IsSame dev s r.1)
          (readi_from k i off n t)
  unfolding readi_from
  readi_from-bytes zero off n s t p d room h =
      returns (slice-nil off n (byte_at dev i s) (ground arith), p)
  readi_from-bytes (suc k) off n s t p d room h =
      Ensures-bool (n == 0) (λ z. returns (slice-nil off n (byte_at dev i s) (ground arith), p))
        (λ nz.
          let m : ℕ = chunk off n in
          Ensures->>= (read_chunk-bytes off m s t p d (ground arith) (ground arith)) (λ bs (e, q).
            Ensures->>=
              (readi_from-bytes k (off + m) (n - m) s bs.1 q d (ground arith)
                (chunk_left k off n h nz))
              (λ rest (e', q'). returns (
                ap₂ (λ x y. x ++ y) e e'
                    ∙ slice-append m (n - m) off (byte_at dev i s)
                    ∙ ap (slice (byte_at dev i s) off) (chunk_le off n),
                q',
              ))))

  -- `readi` of a range within the direct blocks gives the bytes of the file, as far as it goes.
  pub readi-bytes :
      (off n : ℕ) (s : Fs)
      → IsSound dev s
      → (s.inode i).dev ≡ dev
      → (s.inode i).size ≤ capacity
      → off ≤ (s.inode i).size
      → off + n < 2 ^ 32
      → Ensures {A = Option (List ℕ) × Fs}
          (λ r.
            (r.0 ≡ some (slice (byte_at dev i s) off (clamp (s.inode i).size off n)))
            × IsSame dev s r.1)
          (readi i off n s)
  unfolding readi
  readi-bytes off n s ok d small from fits =
      let m : ℕ = clamp (s.inode i).size off n in
      Ensures-if (bad_range (s.inode i).size off n) (λ bad. absurd (ground arith))
        (λ _.
          Ensures->>=
            (readi_from-bytes (m / bsize + 2) off m s s (IsSame-refl ok) d (ground arith)
              (inr (omega arith)))
            (λ r (e, p). returns (ap some e, p)))
