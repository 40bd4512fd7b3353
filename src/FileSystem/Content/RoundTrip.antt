-- ===== src/FileSystem/Content/RoundTrip.antt =====
-- kernel/fs.c: `writei` as a whole, and `readi` of what it wrote.
use riscvos.Common.{
  ℕ, ◌+◌, ◌/◌, ◌%◌, ◌^◌, ◌<◌, ◌≤◌, ◌≡◌, refl, ◌≢◌, inl, inr, ◌∙◌, sym, ap, subst, arith, true,
  Option, some, List, ◌==◌, ltb, if◌then◌else◌, update_self, update_ne, if_then, if_else,
  Bool-cases,
}
use riscvos.Common.Outcome.{Ensures, returns, Ensures->>=, Ensures-imp, Ensures-if, Ensures-option}
use riscvos.FileSystem.{Fs, Inode, bsize, ndirect, set_inode}
use riscvos.FileSystem.Edits.{IsSound, seen, Edited}
use riscvos.FileSystem.Blocks.Alloc.{used}
use riscvos.FileSystem.Inodes.{dinode_of}
use riscvos.FileSystem.Inodes.Reload.{home, iupdate-Edited}
use riscvos.FileSystem.Content.{patch, grow, writei, bad_range, clamp, slice, readi}
use riscvos.FileSystem.Content.Bytes.{held, byte_at, capacity, readi-bytes, slice-ext}
use riscvos.FileSystem.Content.Files.{IsFile, IsForeign, Extends, edited-Extends, edited-bytes_out}
use riscvos.FileSystem.Content.Writing.{Wrote, writei_from-Wrote}

abbrev pub size_after : ℕ → ℕ → ℕ
size_after size end = if ltb size end then end else size

-- What `writei` leaves of a file, of the other inodes and of what else uses blocks.
pub record Stored (dev start i : ℕ) (src : ℕ → ℕ) (off n : ℕ) (s t : Fs) : Type 0 where
  pub sound : IsSound dev t
  pub file : IsFile dev start i t
  pub size : (t.inode i).size ≡ size_after (s.inode i).size (off + n)
  pub bytes : (j : ℕ) → j < capacity → byte_at dev i t j ≡ patch (byte_at dev i s) off n src 0 j
  pub elsewhere : (j : ℕ) → j ≢ i → t.inode j ≡ s.inode j
  pub foreign : (m : ℕ) → IsForeign dev start i s m → seen dev t m ≡ seen dev s m

module _ (i z : ℕ) (s : Fs) where
  abbrev resized : Fs
  resized = set_inode i (record (s.inode i) { size = z }) s

  resized-inode : resized.inode i ≡ record (s.inode i) { size = z }
  resized-inode = update_self s.inode i (record (s.inode i) { size = z })

  resized-IsFile : {dev start : ℕ} → IsFile dev start i s → IsFile dev start i resized
  resized-IsFile {dev} {start} f = record {
    laid = record {
      size = f.laid.size;
      room = f.laid.room;
      bitmap_end = f.laid.bitmap_end;
      bitmap = f.laid.bitmap;
      own = f.laid.own;
    };
    on_dev = ap (λ y. y.dev) resized-inode ∙ f.on_dev;
    at_home = subst (λ h. (0 < h) × (h < start)) (sym same_home) f.at_home;
    home_apart = λ b hb e. f.home_apart b hb (e ∙ same_home);
    below =
        subst (λ y. (m : ℕ) → m < ndirect → y.addrs m ≢ 0 → y.addrs m < s.sb.size)
          (sym resized-inode) f.below;
    behind =
        subst (λ y. (m : ℕ) → m < ndirect → y.addrs m ≢ 0 → start ≤ y.addrs m) (sym resized-inode)
          f.behind;
    taken =
        subst (λ y. (m : ℕ) → m < ndirect → y.addrs m ≢ 0 → used dev s (y.addrs m) ≡ true)
          (sym resized-inode) f.taken;
    apart =
        subst
          (λ y.
            (m k : ℕ) → m < ndirect → k < ndirect → y.addrs m ≢ 0 → y.addrs m ≡ y.addrs k → m ≡ k)
          (sym resized-inode) f.apart;
  }
    where
      same_home : home resized i ≡ home s i
      same_home = ap (λ y. (y.inum / 16 + s.sb.inodestart) % 2 ^ 32) resized-inode

  resized-bytes : (dev j : ℕ) → byte_at dev i resized j ≡ byte_at dev i s j
  unfolding byte_at
  resized-bytes dev j = ap (λ y. held (seen dev s) (y.addrs (j / bsize)) (j % bsize)) resized-inode

-- The file before `iupdate`, with the size that it will have.
record Sized (dev start i end : ℕ) (s t : Fs) : Type 0 where
  sound : IsSound dev t
  file : IsFile dev start i t
  size : (t.inode i).size ≡ size_after (s.inode i).size end
  bytes : (j : ℕ) → byte_at dev i t j ≡ byte_at dev i s j
  elsewhere : (j : ℕ) → j ≢ i → t.inode j ≡ s.inode j
  foreign :
      (m : ℕ)
      → IsForeign dev start i s m
      → (seen dev t m ≡ seen dev s m) × IsForeign dev start i t m

grow-Sized :
    {dev start : ℕ} (i end : ℕ) (s : Fs)
    → IsSound dev s
    → IsFile dev start i s
    → Sized dev start i end s (grow i end s)
unfolding grow
grow-Sized {dev} {start} i end s ok f = elim (Bool-cases (ltb (s.inode i).size end)) [
  | inl y ↦ rw y (record {
    sound = record { valid = ok.valid; log = ok.log };
    file = resized-IsFile i end s f;
    size =
        ap (λ (x : Inode). x.size) (resized-inode i end s)
        ∙ sym (if_then (ltb (s.inode i).size end) end (s.inode i).size y);
    bytes = resized-bytes i end s dev;
    elsewhere = λ j ne. update_ne s.inode i j (record (s.inode i) { size = end }) (λ e. ne (sym e));
    foreign = λ m h. (
      refl,
      record {
        behind = h.behind;
        below = h.below;
        taken = h.taken;
        apart = λ k lt e.
            h.apart k lt (sym (ap (λ (x : Inode). x.addrs k) (resized-inode i end s)) ∙ e);
      },
    );
  })
  | inr n ↦ rw n (record {
    sound = ok;
    file = f;
    size = sym (if_else (ltb (s.inode i).size end) end (s.inode i).size n);
    bytes = λ j. refl;
    elsewhere = λ j ne. refl;
    foreign = λ m h. (refl, h);
  })
]

-- The write of the inode leaves the file and what else uses blocks.
updated-Stored :
    {dev start : ℕ} (i : ℕ) (src : ℕ → ℕ) (off n : ℕ) (s t g u : Fs)
    → Wrote dev start i src 0 off n s t
    → Sized dev start i (off + n) t g
    → Edited dev (home g i) (dinode_of (g.inode i) (seen dev g (home g i))) g u
    → Stored dev start i src off n s u
updated-Stored {dev} {start} i src off n s t g u p q w = record {
  sound = w.sound;
  file = e.file;
  size =
      ap (λ (x : Inode). x.size) e.meta
      ∙ q.size
      ∙ ap (λ (x : Inode). size_after x.size (off + n)) p.kept.meta;
  bytes = λ j lt. edited-bytes_out q.file w q.file.home_apart own j lt ∙ q.bytes j ∙ p.bytes j lt;
  elsewhere = λ j ne. e.elsewhere j ne ∙ q.elsewhere j ne ∙ p.kept.elsewhere j ne;
  foreign = λ m h.
      let a = p.kept.foreign m h in let b = q.foreign m a.1 in (e.foreign m b.1).0 ∙ b.0 ∙ a.0;
}
  where
    own : (m : ℕ) → m < ndirect → (g.inode i).addrs m ≢ 0 → (g.inode i).addrs m ≢ home g i
    own m lt nz z = omega (arith, q.file.at_home, q.file.behind m lt nz, z)

    e : Extends dev start i g u
    e =
        edited-Extends q.file w q.file.home_apart
          (λ m h z. omega (arith, q.file.at_home, h.behind, z))

module _ {dev start : ℕ} (i : ℕ) (src : ℕ → ℕ) (off n : ℕ) (s : Fs) (ok : IsSound dev s)
    (f : IsFile dev start i s) (from : off ≤ (s.inode i).size) (room : off + n ≤ capacity) where
  pub writei-Stored :
      Ensures {A = Option ℕ × Fs}
        (λ w. (w.0 ≡ some n) × Stored dev start i src off n s w.1)
        (writei i src off n s)
  unfolding writei
  writei-Stored =
      Ensures-if (bad_range (s.inode i).size off n) (λ bad. absurd (ground arith))
        (λ _.
          Ensures->>=
            (writei_from-Wrote i src (n / bsize + 2) 0 off n s ok f room (inr (omega arith)))
            (λ r (e, p).
              Ensures-option r.0 (λ z. cc)
                (λ end z.
                  let sum : end ≡ off + n = cc (e, z) in
                  Ensures-if (n == 0) (λ nil. returns (refl, same_size r.1 p (ground arith)))
                    (λ _.
                      let q : Sized dev start i (off + n) r.1 (grow i end r.1) =
                        subst (λ x. Sized dev start i x r.1 (grow i end r.1)) sum
                          (grow-Sized i end r.1 p.kept.sound p.kept.file) in
                      Ensures->>=
                        (iupdate-Edited i (grow i end r.1) q.sound q.file.on_dev
                          (λ y. omega (arith, q.file.at_home, y)))
                        (λ t w.
                          returns
                            (refl, updated-Stored i src off n s r.1 (grow i end r.1) t p q w))))))
    where
      same_size :
          (t : Fs) → Wrote dev start i src 0 off n s t → n ≡ 0 → Stored dev start i src off n s t
      same_size t p z = record {
        sound = p.kept.sound;
        file = p.kept.file;
        size = ap (λ (x : Inode). x.size) p.kept.meta ∙ ground arith;
        bytes = p.bytes;
        elsewhere = p.kept.elsewhere;
        foreign = λ m h. (p.kept.foreign m h).0;
      }

-- A file in its direct blocks, which may be holes, on a sound file system in a transaction: `writei` of a range that starts in
-- the file and ends in the direct blocks writes all of it, or stops the machine; it allocates the blocks that are not
-- there. `readi` of any range then gives the bytes of the source where the two ranges meet and the file's old
-- bytes elsewhere, up to the new size. The file owns its blocks as before, and no other inode and no
-- block in use by anything else has changed. Neither call spins for ever.
pub readi-writei :
    {dev start : ℕ} (i : ℕ) (src : ℕ → ℕ) (off n o m : ℕ) (s : Fs)
    → IsSound dev s
    → IsFile dev start i s
    → (s.inode i).size ≤ capacity
    → off ≤ (s.inode i).size
    → off + n ≤ capacity
    → o ≤ size_after (s.inode i).size (off + n)
    → o + m < 2 ^ 32
    → Ensures {A = Option ℕ × Fs}
        (λ w.
          (w.0 ≡ some n)
          × Stored dev start i src off n s w.1
          × Ensures {A = Option (List ℕ) × Fs}
              (λ r.
                r.0
                ≡ some (
                    slice
                      (patch (byte_at dev i s) off n src 0)
                      o
                      (clamp (size_after (s.inode i).size (off + n)) o m)))
              (readi i o m w.1))
        (writei i src off n s)
readi-writei {dev} {start} i src off n o m s ok f small from room at fits =
    Ensures-imp
      (λ w (e, p).
        let le : (w.1.inode i).size ≤ capacity = ground (arith, p.size) in
        (
          e,
          p,
          Ensures-imp
              (λ r (q, _).
                q
                ∙ ap some (
                    slice-ext (clamp (w.1.inode i).size o m) o o (byte_at dev i w.1)
                      (patch (byte_at dev i s) off n src 0)
                      (λ j lt. p.bytes (o + j) (ground (arith, p.size)))
                    ∙ ap (λ z. slice (patch (byte_at dev i s) off n src 0) o (clamp z o m)) p.size))
              (readi-bytes dev i o m w.1 p.sound p.file.on_dev le
                (subst (λ z. o ≤ z) (sym p.size) at) fits),
        ))
      (writei-Stored i src off n s ok f from room)
