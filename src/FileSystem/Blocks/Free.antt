-- ===== src/FileSystem/Blocks/Free.antt =====
-- kernel/fs.c: `bfree` through the log and the cache, and a block that is allocated and freed.
use riscvos.Common.{
  ℕ, ◌%◌, ◌<◌, ◌≡◌, refl, ◌≢◌, ◌∙◌, sym, ap, subst, arith, Bool, true, false, ◌==◌, if◌then◌else◌,
}
use riscvos.Common.Outcome.{Ensures, returns, panics, Ensures->>=, Ensures-imp, Ensures-bool}
use riscvos.FileSystem.{Fs, bpb, bblock, contents, release}
use riscvos.FileSystem.Edits.{
  IsSound, seen, Edited, get_block-Looked, Looked-contents, log_buffer-Edited,
}
use riscvos.FileSystem.Blocks.{is_used, unmark, balloc, bfree}
use riscvos.FileSystem.Blocks.Bits.{unmark_lem}
use riscvos.FileSystem.Blocks.Alloc.{
  used, IsLaid, Allocated, Allocated-IsLaid, balloc-Allocated, nonzero, changed-bits,
}

-- What `bfree` of block `r` leaves.
pub record Freed (dev r : ℕ) (s t : Fs) : Type 0 where
  pub sound : IsSound dev t
  pub was_used : used dev s r ≡ true
  pub bits : (b : ℕ) → b < s.sb.size → used dev t b ≡ (if r == b then false else used dev s b)
  pub others : (m : ℕ) → m ≢ 0 → m ≢ bblock r s.sb → seen dev t m ≡ seen dev s m
  pub sb : t.sb ≡ s.sb
  pub inode : t.inode ≡ s.inode

pub bfree-Freed :
    {dev start : ℕ} (r : ℕ) (s : Fs)
    → IsSound dev s
    → IsLaid dev start s
    → r < s.sb.size
    → Ensures (Freed dev r s) (bfree dev r s)
unfolding bfree
bfree-Freed {dev} r s ok l hr =
    Ensures->>= (get_block-Looked ok dev (bblock r s.sb) refl (nonzero l r hr)) (λ bp k.
      Ensures-bool (is_used (contents bp.0 bp.1) (r % bpb))
        (λ u.
          let c = Looked-contents ok k in
          let was : used dev s r ≡ true = ap (λ d. is_used d (r % bpb)) (sym c) ∙ u in
          Ensures->>=
            (log_buffer-Edited ok (nonzero l r hr) (unmark (contents bp.0 bp.1) (r % bpb)) k)
            (λ t w.
              let w' =
                subst (λ d. Edited dev (bblock r s.sb) (unmark d (r % bpb)) s (release bp.0 t)) c
                  w in
              returns (record {
                sound = w.sound;
                was_used = was;
                bits = λ b hb.
                    ap (λ p. is_used (seen dev (release bp.0 t) (bblock b p)) (b % bpb)) w.sb
                    ∙ changed-bits l false r (release bp.0 t)
                        (unmark (seen dev s (bblock r s.sb)) (r % bpb)) hr
                        (λ j. unmark_lem (seen dev s (bblock r s.sb)) (r % bpb) j was) w' b hb;
                others = w.others;
                sb = w.sb;
                inode = w.inode;
              })))
        (λ _. panics))

-- The same bits and, but for the bitmap and the block itself, the same blocks.
pub record Restored (dev r : ℕ) (s t : Fs) : Type 0 where
  pub bits : (b : ℕ) → b < s.sb.size → used dev t b ≡ used dev s b
  pub others : (m : ℕ) → m ≢ 0 → m ≢ bblock r s.sb → m ≢ r → seen dev t m ≡ seen dev s m

-- With a valid cache, one open transaction in a log whose lock is free, and a disk whose bitmap counts the file system's own
-- blocks as used, to free the block that `balloc` gave restores every
-- bit of the bitmap; the other blocks are as they were, but for the block itself. Under these conditions neither call spins for ever.
pub bfree-balloc :
    {dev start : ℕ} (s : Fs)
    → IsSound dev s
    → IsLaid dev start s
    → Ensures (λ r. Ensures (Restored dev r.0 s) (bfree dev r.0 r.1)) (balloc dev s)
bfree-balloc {dev} {start} s ok l =
    Ensures-imp
      (λ r (a, le).
        Ensures-imp
          (λ t f. record {
            bits = λ b hb.
                f.bits b (below r a b hb)
                ∙ restored (r.0 == b) (used dev s b) (used dev r.1 b) (a.bits b hb)
                    (λ t. subst (λ x. used dev s x ≡ false) (ground arith) a.was_free);
            others = λ m h ne ner.
                f.others m h (λ e. ne (e ∙ ap (bblock r.0) a.sb)) ∙ a.others m h ne ner;
          })
          (bfree-Freed {start = start} r.0 r.1 a.sound (Allocated-IsLaid r l a)
            (below r a r.0 a.on_disk)))
      (balloc-Allocated s ok l)
  where
    below : (r : ℕ × Fs) → Allocated dev s r → (b : ℕ) → b < s.sb.size → b < r.1.sb.size
    below r a b hb = omega (arith, hb, ap (λ x. x.size) a.sb)

    restored :
        (t x y : Bool)
        → y ≡ (if t then true else x)
        → (t ≡ true → x ≡ false)
        → (if t then false else y) ≡ x
    restored true x y e h = sym (h refl)
    restored false x y e h = e
