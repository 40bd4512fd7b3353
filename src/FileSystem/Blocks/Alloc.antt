-- ===== src/FileSystem/Blocks/Alloc.antt =====
-- kernel/fs.c: `balloc` through the log and the cache.
use native.Mathlib.Decide.{ℕ_discrete, dec_lt}
use riscvos.Common.{
  ℕ, zero, suc, ◌+◌, ◌*◌, ◌/◌, ◌%◌, ◌^◌, ◌<◌, ◌≤◌, ◌≡◌, refl, ◌≢◌, ◌∙◌, sym, ap, ap₂, subst, arith,
  Bool, true, false, some, ◌==◌, ltb, ltb→lt, if◌then◌else◌, if_else,
}
use riscvos.Common.Outcome.{
  Ensures, returns, panics, Ensures->>=, Ensures-imp, Ensures-bool, Ensures-option,
}
use riscvos.Common.Word.{rounds}
use riscvos.Storage.Bio.{Block}
use riscvos.FileSystem.{Fs, bpb, bblock, contents, release}
use riscvos.FileSystem.Edits.{
  IsSound, IsSame, seen, Edited, Looked, get_block-Looked, Looked-contents, release-IsSame,
  log_buffer-Edited, IsSame-refl, IsSame-trans, IsSame-Edited,
}
use riscvos.FileSystem.Blocks.{is_used, mark, free_bit, take_block, balloc_from, balloc}
use riscvos.FileSystem.Blocks.Bits.{mark_lem}
use riscvos.FileSystem.Blocks.Bitmap.{Found, first, free_bit-Found}

-- The bit of block `b` in the bitmap, as the kernel sees it.
abbrev pub used : ℕ → Fs → ℕ → Bool
used dev s b = is_used (seen dev s (bblock b s.sb)) (b % bpb)

-- The blocks below `start` hold the file system's own data, the bitmap among it, and the bitmap counts them as used.
pub record IsLaid (dev start : ℕ) (s : Fs) : Type 0 where
  pub size : s.sb.size < 2 ^ 31
  pub room : start ≤ s.sb.size
  pub bitmap_end : s.sb.bmapstart < 2 ^ 31
  pub bitmap : (b : ℕ) → b < s.sb.size → (0 < bblock b s.sb) × (bblock b s.sb < start)
  pub own : (b : ℕ) → b < start → used dev s b ≡ true

-- What `balloc` gives: a block of the disk that was free.
pub record Allocated (dev : ℕ) (s : Fs) (r : ℕ × Fs) : Type 0 where
  pub sound : IsSound dev r.1
  pub on_disk : r.0 < s.sb.size
  pub was_free : used dev s r.0 ≡ false
  pub bits : (b : ℕ) → b < s.sb.size → used dev r.1 b ≡ (if r.0 == b then true else used dev s b)
  pub zeroed : seen dev r.1 r.0 ≡ (λ i. 0)
  pub others : (m : ℕ) → m ≢ 0 → m ≢ bblock r.0 s.sb → m ≢ r.0 → seen dev r.1 m ≡ seen dev s m
  pub sb : r.1.sb ≡ s.sb
  pub inode : r.1.inode ≡ s.inode

rounds-le : (n : ℕ) → rounds n ≤ n
rounds-le n = ground arith

test_ne : (a b : ℕ) → a ≢ b → (a == b) ≡ false
test_ne a b h = ground arith

module _ {dev start : ℕ} {s : Fs} (l : IsLaid dev start s) where
  pub nonzero : (b : ℕ) → b < s.sb.size → bblock b s.sb ≢ 0
  nonzero b hb z = omega (arith, l.bitmap b hb, z)

  pub free-le : (r : ℕ) → used dev s r ≡ false → start ≤ r
  free-le r f = elim (dec_lt r start) [ yes lt ↦ cc (l.own r lt, f) | no ge ↦ omega arith ]

  -- Two blocks with one bit between them are one block.
  same_bit :
      (b r : ℕ)
      → b < s.sb.size
      → r < s.sb.size
      → bblock b s.sb ≡ bblock r s.sb
      → (r % bpb == b % bpb) ≡ (r == b)
  same_bit b r hb hr e =
      let q : b / 8192 ≡ r / 8192 = omega (arith, l.size, l.bitmap_end) in ground arith

  -- The bitmap once the bit of `r` is `v`.
  pub changed-bits :
      (v : Bool) (r : ℕ) (t : Fs) (x : Block)
      → r < s.sb.size
      → ((k : ℕ)
          → is_used x k ≡ (if r % bpb == k then v else is_used (seen dev s (bblock r s.sb)) k))
      → Edited dev (bblock r s.sb) x s t
      → (b : ℕ) → b < s.sb.size
      → is_used (seen dev t (bblock b s.sb)) (b % bpb) ≡ (if r == b then v else used dev s b)
  changed-bits v r t x hr one w b hb = elim (ℕ_discrete (bblock b s.sb) (bblock r s.sb)) [
    | yes e ↦
        ap (λ n. is_used (seen dev t n) (b % bpb)) e
        ∙ ap (λ d. is_used d (b % bpb)) w.self
        ∙ one (b % bpb)
        ∙ ap₂ (λ y n. if y then v else is_used (seen dev s n) (b % bpb)) (same_bit b r hb hr e)
            (sym e)
    | no ne ↦
        ap (λ d. is_used d (b % bpb)) (w.others (bblock b s.sb) (nonzero b hb) ne)
        ∙ sym (
            if_else (r == b) v (used dev s b)
              (test_ne r b (λ e. ne (sym (ap (λ x. bblock x s.sb) e)))))
  ]

  pub first-pos : (b : ℕ) → b < s.sb.size → 0 < start
  first-pos b hb = omega (arith, l.bitmap b hb)

  -- Both edits of `balloc`: the bit and the zeroes.
  both :
      (r : ℕ) (t u : Fs)
      → r < s.sb.size
      → used dev s r ≡ false
      → Edited dev (bblock r s.sb) (mark (seen dev s (bblock r s.sb)) (r % bpb)) s t
      → Edited dev r (λ i. 0) t u
      → Allocated dev s (r, u)
  both r t u hr f w z = record {
    sound = z.sound;
    on_disk = hr;
    was_free = f;
    bits = λ b hb.
        ap (λ p. is_used (seen dev u (bblock b p)) (b % bpb)) (z.sb ∙ w.sb)
        ∙ ap (λ d. is_used d (b % bpb))
            (z.others (bblock b s.sb) (nonzero b hb)
              (λ e. omega (arith, l.bitmap b hb, free-le r f, e)))
        ∙ changed-bits true r t (mark (seen dev s (bblock r s.sb)) (r % bpb)) hr
            (λ k. mark_lem (seen dev s (bblock r s.sb)) (r % bpb) k f) w b hb;
    zeroed = z.self;
    others = λ m h ne ner. z.others m h ner ∙ w.others m h ne;
    sb = z.sb ∙ w.sb;
    inode = z.inode ∙ w.inode;
  }

  at_place :
      (b bi : ℕ) (t : Fs) (bp : ℕ × Fs) (u : Fs) (r : ℕ)
      → IsSame dev s t
      → bblock b t.sb ≡ bblock r s.sb
      → contents bp.0 bp.1 ≡ seen dev s (bblock r s.sb)
      → bi ≡ r % bpb
      → Edited dev (bblock b t.sb) (mark (contents bp.0 bp.1) bi) t u
      → Edited dev (bblock r s.sb) (mark (seen dev s (bblock r s.sb)) (r % bpb)) s u
  at_place b bi t bp u r p place same bit w =
      subst (λ n. Edited dev n (mark (seen dev s (bblock r s.sb)) (r % bpb)) s u) place
        (subst (λ x. Edited dev (bblock b t.sb) x s u) (ap₂ mark same bit) (IsSame-Edited p w))

  -- The round of `balloc` that finds a bit, at a state that shows what `s` does.
  take_block-Allocated :
      (b bi : ℕ) (t : Fs) (bp : ℕ × Fs)
      → IsSame dev s t
      → Looked dev (bblock b t.sb) t bp
      → b % bpb ≡ 0
      → bi < bpb
      → b + bi < s.sb.size
      → is_used (contents bp.0 bp.1) bi ≡ false
      → Ensures (Allocated dev s) (take_block dev b bi bp.0 bp.1)
  unfolding take_block
  take_block-Allocated b bi t bp p k round hbi hr clear =
      let r : ℕ = b + bi in
      let place : bblock b t.sb ≡ bblock r s.sb =
        ap (bblock b) p.sb ∙ ap (λ q. (q + s.sb.bmapstart) % 2 ^ 32) (omega arith) in
      let bit : bi ≡ r % bpb = omega arith in
      let nz : bblock b t.sb ≢ 0 = λ z. nonzero r hr (sym place ∙ z) in
      let same : contents bp.0 bp.1 ≡ seen dev s (bblock r s.sb) =
        Looked-contents p.sound k ∙ p.blocks (bblock b t.sb) nz ∙ ap (seen dev s) place in
      let f : used dev s r ≡ false = ap₂ is_used (sym same) (sym bit) ∙ clear in
      let rnz : r ≢ 0 = λ z. omega (arith, free-le r f, first-pos r hr, z) in
      Ensures->>= (log_buffer-Edited p.sound nz (mark (contents bp.0 bp.1) bi) k) (λ t' w.
        Ensures->>= (get_block-Looked w.sound dev r refl rnz) (λ bp' k'.
          Ensures->>= (log_buffer-Edited w.sound rnz (λ i. 0) k') (λ u z. returns (
            both r (release bp.0 t') (release bp'.0 u) hr f
              (at_place b bi t bp (release bp.0 t') r p place same bit w) z))))

  below : (t : Fs) (b : ℕ) → IsSame dev s t → b < rounds t.sb.size → b < s.sb.size
  below t b p h = omega (arith, rounds-le t.sb.size, h, ap (λ x. x.size) p.sb)

  zero_block :
      (t : Fs) (b : ℕ) → IsSame dev s t → ltb b (rounds t.sb.size) ≡ true → bblock b t.sb ≢ 0
  zero_block t b p on z =
      nonzero b (below t b p (ltb→lt b (rounds t.sb.size) on)) (sym (ap (bblock b) p.sb) ∙ z)

  balloc_from-Allocated :
      (k b : ℕ) (t : Fs)
      → IsSame dev s t
      → b % bpb ≡ 0
      → (1 ≤ k) × (rounds s.sb.size + bpb ≤ b + k * bpb)
      → Ensures (Allocated dev s) (balloc_from k dev b t)
  unfolding balloc_from
  balloc_from-Allocated zero b t p round fuel = absurd (omega (arith, fuel))
  balloc_from-Allocated (suc k) b t p round fuel =
      Ensures-bool (ltb b (rounds t.sb.size))
        (λ on.
          Ensures->>= (get_block-Looked p.sound dev (bblock b t.sb) refl (zero_block t b p on))
            (λ bp q.
              Ensures-option (free_bit (contents bp.0 bp.1) (rounds t.sb.size) b bpb 0)
                (λ _.
                  balloc_from-Allocated k (b + bpb) (release bp.0 bp.1)
                    (IsSame-trans p (release-IsSame p.sound q)) (omega arith)
                    (omega (arith, fuel, inside on), omega (arith, fuel)))
                (λ bi e. taken bp q bi (
                  subst (Found (contents bp.0 bp.1) (rounds t.sb.size) b 0 bpb) e
                    (free_bit-Found (contents bp.0 bp.1) (rounds t.sb.size) b bpb 0)))))
        (λ _. panics)
    where
      inside : ltb b (rounds t.sb.size) ≡ true → b < rounds s.sb.size
      inside on = subst (λ q. b < rounds q.size) p.sb (ltb→lt b (rounds t.sb.size) on)

      taken :
          (bp : ℕ × Fs)
          → Looked dev (bblock b t.sb) t bp
          → (bi : ℕ) → Found (contents bp.0 bp.1) (rounds t.sb.size) b 0 bpb (some bi)
          → Ensures (Allocated dev s) (take_block dev b bi bp.0 bp.1)
      taken bp q bi (first _ lt on clear _) =
          take_block-Allocated b bi t bp p q round (omega arith) (below t (b + bi) p on) clear

-- With a valid cache, one open transaction in a log whose lock is free, and a disk of fewer than 2^31 blocks whose bitmap counts
-- the file system's own blocks as used, `balloc` never spins for ever: its loop leaves each bitmap block behind, and it panics or returns. What it returns is a block of the disk that was free and is none of the file system's own: it is now filled with
-- zeroes, its bit is set, every other bit and block is as it was.
pub balloc-Allocated :
    {dev start : ℕ} (s : Fs)
    → IsSound dev s
    → IsLaid dev start s
    → Ensures (λ r. Allocated dev s r × (start ≤ r.0)) (balloc dev s)
unfolding balloc
balloc-Allocated {dev} {start} s ok l =
    Ensures-imp (λ r a. (a, free-le l r.0 a.was_free))
      (balloc_from-Allocated l (rounds s.sb.size / bpb + 2) 0 s (IsSame-refl ok) refl
        (omega arith, omega arith))

pub Allocated-IsLaid :
    {dev start : ℕ} {s : Fs} (r : ℕ × Fs)
    → IsLaid dev start s
    → Allocated dev s r
    → IsLaid dev start r.1
Allocated-IsLaid {dev} {start} {s} r l a = record {
  size = subst (λ y. y.size < 2 ^ 31) (sym a.sb) l.size;
  room = subst (λ y. start ≤ y.size) (sym a.sb) l.room;
  bitmap_end = subst (λ y. y.bmapstart < 2 ^ 31) (sym a.sb) l.bitmap_end;
  bitmap =
      subst (λ y. (b : ℕ) → b < y.size → (0 < bblock b y) × (bblock b y < start)) (sym a.sb)
        l.bitmap;
  own = λ b lt. a.bits b (omega (arith, l.room)) ∙ both_true (r.0 == b) (used dev s b) (l.own b lt);
}
  where
    both_true : (t x : Bool) → x ≡ true → (if t then true else x) ≡ true
    both_true true x h = refl
    both_true false x h = h
