-- ===== src/FileSystem/Content/Writing.antt =====
-- kernel/fs.c: `writei` of a file in its direct blocks, and `readi` of what it wrote.
use native.Mathlib.Decide.{ℕ_discrete, dec_lt}
use riscvos.Common.{
  ℕ, zero, suc, ◌+◌, ◌-◌, ◌*◌, ◌/◌, ◌%◌, ◌<◌, ◌≤◌, ◌≡◌, ◌≢◌, ◌⊎◌, ◌∙◌, sym, ap, subst, arith,
  Option, some, ◌==◌, ltb, leb, ◌&&◌, if◌then◌else◌,
}
use riscvos.Common.Outcome.{Ensures, returns, Ensures->>=, Ensures-imp, Ensures-bool}
use riscvos.Storage.Bio.{Block}
use riscvos.FileSystem.{Fs, bsize, bblock, ndirect, contents, release}
use riscvos.FileSystem.Edits.{
  IsSound, seen, Edited, get_block-Looked, Looked-contents, log_buffer-Edited,
}
use riscvos.FileSystem.Content.{chunk, patch, writei_from}
use riscvos.FileSystem.Content.Reading.{chunk_left, chunk_le}
use riscvos.FileSystem.Content.Bytes.{held, held-some, byte_at, capacity}
use riscvos.FileSystem.Content.Files.{
  IsFile, IsForeign, Extends, Extends-refl, Extends-trans, edited-Extends, edited-bytes,
}
use riscvos.FileSystem.Content.Slots.{Mapped, bmap-Mapped}

-- The part of a range that lies in one block.
round-patch :
    (b g : ℕ → ℕ) (off m : ℕ) (src : ℕ → ℕ) (tot j : ℕ)
    → off % bsize + m ≤ bsize
    → (j / bsize ≡ off / bsize → b (j % bsize) ≡ g j)
    → (if j / bsize == off / bsize then patch b (off % bsize) m src tot (j % bsize) else g j)
      ≡ patch g off m src tot j
round-patch b g off m src tot j fits same = elim (ℕ_discrete (j / bsize) (off / bsize)) [
  | yes e ↦ ground (arith, same e, ap (λ k. src (tot + k)) (shift e))
  | no ne ↦ ground arith
]
  where
    shift : j / bsize ≡ off / bsize → j % bsize - off % bsize ≡ j - off
    shift e = omega arith

-- Two ranges, one behind the other.
patch-patch :
    (g : ℕ → ℕ) (off m n : ℕ) (src : ℕ → ℕ) (tot j : ℕ)
    → patch (patch g off m src tot) (off + m) n src (tot + m) j ≡ patch g off (m + n) src tot j
patch-patch g off m n src tot j = elim (dec_lt j (off + m)) [
  | yes lt ↦ ground arith
  | no ge ↦
      let shift : tot + m + (j - (off + m)) ≡ tot + (j - off) = omega arith in
      ground (arith, ap src shift)
]

patch-nil :
    (g : ℕ → ℕ) (off n : ℕ) (src : ℕ → ℕ) (tot j : ℕ) → n ≡ 0 → patch g off n src tot j ≡ g j
patch-nil g off n src tot j z = ground arith

patch-ext :
    (f g : ℕ → ℕ) (off n : ℕ) (src : ℕ → ℕ) (tot j : ℕ)
    → f j ≡ g j
    → patch f off n src tot j ≡ patch g off n src tot j
patch-ext f g off n src tot j e =
    ap (λ x. if leb off j && ltb j (off + n) then src (tot + (j - off)) else x) e

-- The file has the bytes of the source in the range, and its own elsewhere.
pub record Wrote (dev start i : ℕ) (src : ℕ → ℕ) (tot off n : ℕ) (s t : Fs) : Type 0 where
  pub kept : Extends dev start i s t
  pub bytes : (j : ℕ) → j < capacity → byte_at dev i t j ≡ patch (byte_at dev i s) off n src tot j

module _ {dev start : ℕ} (i : ℕ) (src : ℕ → ℕ) where
  -- The edit of one round.
  round-Wrote :
      (tot off m : ℕ) (s : Fs) (a : ℕ × Fs) (b : Block) (t : Fs)
      → off / bsize < ndirect
      → off % bsize + m ≤ bsize
      → Mapped dev start i (off / bsize) s a
      → b ≡ seen dev a.1 a.0
      → Edited dev a.0 (patch b (off % bsize) m src tot) a.1 t
      → Wrote dev start i src tot off m s t
  unfolding byte_at
  round-Wrote tot off m s a b t hbn fits p e w = record {
    kept = Extends-trans p.kept (edited-Extends p.kept.file w clear away);
    bytes = λ j lt.
        edited-bytes p.kept.file w clear (off / bsize) hbn there p.addr j lt
        ∙ round-patch b (byte_at dev i a.1) off m src tot j fits (own j)
        ∙ patch-ext (byte_at dev i a.1) (byte_at dev i s) off m src tot j (p.bytes j lt);
  }
    where
      there : (a.1.inode i).addrs (off / bsize) ≢ 0
      there z = p.there (sym p.addr ∙ z)

      behind : start ≤ a.0
      behind = subst (λ x. start ≤ x) p.addr (p.kept.file.behind (off / bsize) hbn there)

      clear : (c : ℕ) → c < a.1.sb.size → bblock c a.1.sb ≢ a.0
      clear c hc z = omega (arith, p.kept.file.laid.bitmap c hc, behind, z)

      away : (c : ℕ) → IsForeign dev start i a.1 c → c ≢ a.0
      away c h z = h.apart (off / bsize) hbn (p.addr ∙ sym z)

      own : (j : ℕ) → j / bsize ≡ off / bsize → b (j % bsize) ≡ byte_at dev i a.1 j
      own j q =
          ap (λ x. x (j % bsize)) e
          ∙ sym (
              ap (λ x. held (seen dev a.1) x (j % bsize)) (ap (a.1.inode i).addrs q ∙ p.addr)
              ∙ held-some (seen dev a.1) a.0 (j % bsize) p.there)

  Wrote-nil :
      (tot off n : ℕ) (s : Fs)
      → IsSound dev s
      → IsFile dev start i s
      → n ≡ 0
      → Wrote dev start i src tot off n s s
  Wrote-nil tot off n s ok f z = record {
    kept = Extends-refl ok f;
    bytes = λ j lt. sym (patch-nil (byte_at dev i s) off n src tot j z);
  }

  -- A round and the rest.
  Wrote-trans :
      (tot off m n : ℕ) (s t u : Fs)
      → m + (n - m) ≡ n
      → Wrote dev start i src tot off m s t
      → Wrote dev start i src (tot + m) (off + m) (n - m) t u
      → Wrote dev start i src tot off n s u
  Wrote-trans tot off m n s t u e p q = record {
    kept = Extends-trans p.kept q.kept;
    bytes = λ j lt.
        q.bytes j lt
        ∙ patch-ext (byte_at dev i t) (patch (byte_at dev i s) off m src tot) (off + m) (n - m) src
            (tot + m) j (p.bytes j lt)
        ∙ patch-patch (byte_at dev i s) off m (n - m) src tot j
        ∙ ap (λ k. patch (byte_at dev i s) off k src tot j) e;
  }

  -- The rounds of `writei` write the range.
  pub writei_from-Wrote :
      (k tot off n : ℕ) (s : Fs)
      → IsSound dev s
      → IsFile dev start i s
      → off + n ≤ capacity
      → (n ≡ 0) ⊎ (off % bsize + n ≤ k * bsize)
      → Ensures {A = Option ℕ × Fs}
          (λ r. (r.0 ≡ some (off + n)) × Wrote dev start i src tot off n s r.1)
          (writei_from k i src tot off n s)
  unfolding writei_from
  writei_from-Wrote zero tot off n s ok f room h =
      returns (ground arith, Wrote-nil tot off n s ok f (ground arith))
  writei_from-Wrote (suc k) tot off n s ok f room h =
      Ensures-bool (n == 0) (λ z. returns (ground arith, Wrote-nil tot off n s ok f (ground arith)))
        (λ nz.
          let m : ℕ = chunk off n in
          let hbn : off / bsize < ndirect = ground arith in
          let fits : off % bsize + m ≤ bsize = ground arith in
          Ensures->>= (bmap-Mapped i (off / bsize) s ok f hbn) (λ a p.
            Ensures-bool (a.0 == 0) (λ z. absurd (p.there (ground arith)))
              (λ _.
                Ensures->>=
                  (get_block-Looked p.kept.sound (a.1.inode i).dev a.0 p.kept.file.on_dev p.there)
                  (λ bp q.
                    Ensures->>=
                      (log_buffer-Edited p.kept.sound p.there
                        (patch (contents bp.0 bp.1) (off % bsize) m src tot) q)
                      (λ t w.
                        let one =
                          round-Wrote tot off m s a (contents bp.0 bp.1) (release bp.0 t) hbn fits p
                            (Looked-contents p.kept.sound q) w in
                        Ensures-imp
                          (λ r (e, rest). (
                            e ∙ ap some (omega (arith, chunk_le off n)),
                            Wrote-trans tot off m n s (release bp.0 t) r.1 (chunk_le off n) one
                                rest,
                          ))
                          (writei_from-Wrote k (tot + m) (off + m) (n - m) (release bp.0 t)
                            one.kept.sound one.kept.file (ground arith)
                            (chunk_left k off n h nz)))))))
