-- ===== src/FileSystem/Content/Reading.antt =====
-- kernel/fs.c: how much `readi` returns.
use riscvos.Common.{
  ℕ, zero, suc, ◌+◌, ◌-◌, ◌*◌, ◌/◌, ◌%◌, ◌^◌, ◌<◌, ◌≤◌, ◌≡◌, refl, ap, ap₂, ◌⊎◌, ◌∙◌, subst, true,
  false, Option, none, some, List, [], ◌++◌, arith, length, length-append, ltb, ◌==◌, Bool-cases,
  inl, inr, if_true, if_false,
}
use riscvos.Common.Outcome.{Outcome, done, >>=-eq-done, ◌>>=◌}
use riscvos.Common.Word.{add32}
use riscvos.Storage.Bio.{Block}
use riscvos.FileSystem.{Fs, bsize, get_block, contents}
use riscvos.FileSystem.Content.{bmap, chunk, slice, read_chunk, readi_from, bad_range, clamp, readi}

length-slice : (b : Block) (o m : ℕ) → length (slice b o m) ≡ m
length-slice b o zero = refl
length-slice b o (suc m) = ap suc (length-slice b (o + 1) m)

read_chunk-length :
    (i off m : ℕ) (s t : Fs) (bs : List ℕ) → read_chunk i off m s ≡ done (bs, t) → length bs ≡ m
unfolding read_chunk
read_chunk-length i off m s t bs e =
    let (a, e₁, e₂) = >>=-eq-done (bmap i (off / bsize) false s) _ e in
    elim (Bool-cases (a.0 == 0)) [
      | inl y ↦ sized (if_true _ _ y e₂) (length-slice (λ j. 0) 0 m)
      | inr n ↦
          let (bp, e₃, e₄) =
            >>=-eq-done (get_block (a.1.inode i).dev a.0 a.1) _ (if_false _ _ n e₂) in
          sized e₄ (length-slice (contents bp.0 bp.1) (off % bsize) m)
    ]
  where
    sized :
        {xs : List ℕ} {u : Fs}
        → ◌≡◌ {A = Outcome (List ℕ × Fs)} (done (xs, u)) (done (bs, t))
        → length xs ≡ m
        → length bs ≡ m
    sized e h = ground arith

-- A round leaves nothing, or ends at the end of a block.
pub chunk_left :
    (k off n : ℕ)
    → (n ≡ 0) ⊎ (off % bsize + n ≤ suc k * bsize)
    → (n == 0) ≡ false
    → (n - chunk off n ≡ 0) ⊎ ((off + chunk off n) % bsize + (n - chunk off n) ≤ k * bsize)
chunk_left k off n (inl z) nz = absurd (ground arith)
chunk_left k off n (inr h) nz = elim (Bool-cases (ltb n (bsize - off % bsize))) [
  | inl y ↦ rw y (inl (omega arith))
  | inr ge ↦ let le : bsize - off % bsize ≤ n = ground arith in rw ge (inr (omega arith))
]

pub chunk_le : (off n : ℕ) → chunk off n + (n - chunk off n) ≡ n
chunk_le off n = ground arith

abbrev one_round : ℕ → ℕ → ℕ → ℕ → Fs → Outcome (List ℕ × Fs)
one_round k i off n s = do
  bs ← read_chunk i off (chunk off n) s
  rest ← readi_from k i (off + chunk off n) (n - chunk off n) bs.1
  done (bs.0 ++ rest.0, rest.1)

open_round :
    (n k i off : ℕ) (s : Fs) {z : Outcome (List ℕ × Fs)}
    → (n == 0) ≡ false
    → readi_from (suc k) i off n s ≡ z
    → one_round k i off n s ≡ z
unfolding readi_from
open_round n k i off s {z} nz e =
    subst (λ b. (elim b [ true ↦ done ([], s) | false ↦ one_round k i off n s ]) ≡ z) nz e

readi_from-length :
    (k i off n : ℕ) (s t : Fs) (bs : List ℕ)
    → (n ≡ 0) ⊎ (off % bsize + n ≤ k * bsize)
    → readi_from k i off n s ≡ done (bs, t)
    → length bs ≡ n
unfolding readi_from
readi_from-length zero i off n s t bs h e = ground arith
readi_from-length (suc k) i off n s t bs h e = elim (Bool-cases (n == 0)) [
  | inl z ↦ ground arith
  | inr nz ↦
      let m = chunk off n in
      let (b, e₁, e₂) = >>=-eq-done (read_chunk i off m s) _ (open_round n k i off s nz e) in
      let (r, e₃, e₄) = >>=-eq-done (readi_from k i (off + m) (n - m) b.1) _ e₂ in
      let small : (n - m ≡ 0) ⊎ ((off + m) % bsize + (n - m) ≤ k * bsize) =
        chunk_left k off n h nz in
      let whole : m + (n - m) ≡ n = chunk_le off n in
      sized e₄ (
        length-append b.0 r.0
        ∙ ap₂ (λ x y. x + y) (read_chunk-length i off m s b.1 b.0 e₁)
            (readi_from-length k i (off + m) (n - m) b.1 r.1 r.0 small e₃)
        ∙ whole)
]
  where
    sized :
        {xs : List ℕ} {u : Fs}
        → ◌≡◌ {A = Outcome (List ℕ × Fs)} (done (xs, u)) (done (bs, t))
        → length xs ≡ n
        → length bs ≡ n
    sized e h = ground arith

pub readi-clamp :
    (i off n : ℕ) (s t : Fs) (r : Option (List ℕ))
    → readi i off n s ≡ done (r, t)
    → ((r ≡ none) × (bad_range (s.inode i).size off n ≡ true))
      ⊎ ((bs : List ℕ) × (r ≡ some bs)
          × (bad_range (s.inode i).size off n ≡ false)
          × (length bs ≡ clamp (s.inode i).size off n))
unfolding readi
readi-clamp i off n s t r e = elim (Bool-cases (bad_range (s.inode i).size off n)) [
  | inl bad ↦
      let q : ◌≡◌ {A = Outcome (Option (List ℕ) × Fs)} (done (none, s)) (done (r, t)) =
        if_true _ _ bad e in
      inl (ground arith, bad)
  | inr good ↦
      let m = clamp (s.inode i).size off n in
      let (b, e₁, e₂) =
        >>=-eq-done (readi_from (m / bsize + 2) i off m s) _ (if_false _ _ good e) in
      inr (
        b.0,
        ground arith,
        good,
        readi_from-length (m / bsize + 2) i off m s b.1 b.0 (inr (omega arith)) e₁,
      )
]

-- When `readi` of 32-bit numbers returns, it returns -1 exactly if the offset lies past the end of the file or the end of the range is
-- 2^32 or more, and else as many bytes as were asked for or, near the end of the file, as are left.
pub readi-length :
    (i off n : ℕ) (s t : Fs) (r : Option (List ℕ))
    → (s.inode i).size < 2 ^ 32
    → off < 2 ^ 32
    → n < 2 ^ 32
    → readi i off n s ≡ done (r, t)
    → ((r ≡ none) × (((s.inode i).size < off) ⊎ (2 ^ 32 ≤ off + n)))
      ⊎ ((bs : List ℕ) × (r ≡ some bs)
          × (off ≤ (s.inode i).size)
          × (off + n < 2 ^ 32)
          × (((off + n ≤ (s.inode i).size) × (length bs ≡ n))
              ⊎ (((s.inode i).size < off + n) × (off + length bs ≡ (s.inode i).size))))
readi-length i off n s t r hs ho hn e = elim (readi-clamp i off n s t r e) [
  | inl (q, bad) ↦ inl (q, out_of_range bad)
  | inr (bs, q, good, len) ↦
      let fits : (off ≤ (s.inode i).size) × (off + n < 2 ^ 32) = (ground arith, ground arith) in
      inr (bs, q, fits.0, fits.1, counted bs good len)
]
  where
    out_of_range :
        bad_range (s.inode i).size off n ≡ true → ((s.inode i).size < off) ⊎ (2 ^ 32 ≤ off + n)
    out_of_range bad = elim (Bool-cases (ltb (s.inode i).size off)) [
      | inl y ↦ inl (ground arith)
      | inr no' ↦ inr (ground arith)
    ]

    counted :
        (bs : List ℕ)
        → bad_range (s.inode i).size off n ≡ false
        → length bs ≡ clamp (s.inode i).size off n
        → ((off + n ≤ (s.inode i).size) × (length bs ≡ n))
          ⊎ (((s.inode i).size < off + n) × (off + length bs ≡ (s.inode i).size))
    counted bs good len = elim (Bool-cases (ltb (s.inode i).size (add32 off n))) [
      | inl y ↦ inr (ground arith, ground arith)
      | inr no' ↦ inl (ground arith, ground arith)
    ]
