-- ===== src/FileSystem/Content/Files.antt =====
-- kernel/fs.c: the blocks that a file owns, and what an edit of one block does to a file.
use native.Mathlib.Decide.{ℕ_discrete}
use riscvos.Common.{
  ℕ, ◌+◌, ◌/◌, ◌%◌, ◌^◌, ◌<◌, ◌≤◌, ◌≡◌, refl, ◌≢◌, ◌∙◌, sym, ap, ap₂, subst, arith, true, ◌==◌,
  if◌then◌else◌, if_then, if_else,
}
use riscvos.Storage.Bio.{Block}
use riscvos.FileSystem.{Fs, Inode, bsize, bpb, bblock, ndirect}
use riscvos.FileSystem.Blocks.{is_used}
use riscvos.FileSystem.Edits.{IsSound, seen, Edited}
use riscvos.FileSystem.Blocks.Alloc.{used, IsLaid, nonzero}
use riscvos.FileSystem.Inodes.Reload.{home}
use riscvos.FileSystem.Content.Bytes.{held, held-same, held-some, byte_at, capacity}

-- An inode whose direct blocks are its own: used, apart from each other and behind the file system's own blocks.
pub record IsFile (dev start i : ℕ) (s : Fs) : Type 0 where
  pub laid : IsLaid dev start s
  pub on_dev : (s.inode i).dev ≡ dev
  pub at_home : (0 < home s i) × (home s i < start)
  pub home_apart : (b : ℕ) → b < s.sb.size → bblock b s.sb ≢ home s i
  pub below : (n : ℕ) → n < ndirect → (s.inode i).addrs n ≢ 0 → (s.inode i).addrs n < s.sb.size
  pub behind : (n : ℕ) → n < ndirect → (s.inode i).addrs n ≢ 0 → start ≤ (s.inode i).addrs n
  pub taken :
      (n : ℕ) → n < ndirect → (s.inode i).addrs n ≢ 0 → used dev s ((s.inode i).addrs n) ≡ true
  pub apart :
      (m n : ℕ)
      → m < ndirect
      → n < ndirect
      → (s.inode i).addrs m ≢ 0
      → (s.inode i).addrs m ≡ (s.inode i).addrs n
      → m ≡ n

-- A block that something else uses.
pub record IsForeign (dev start i : ℕ) (s : Fs) (m : ℕ) : Type 0 where
  pub behind : start ≤ m
  pub below : m < s.sb.size
  pub taken : used dev s m ≡ true
  pub apart : (n : ℕ) → n < ndirect → (s.inode i).addrs n ≢ m

-- The file has changed in its direct blocks at most; what else uses blocks, and the other inodes, are as they were.
pub record Extends (dev start i : ℕ) (s t : Fs) : Type 0 where
  pub sound : IsSound dev t
  pub file : IsFile dev start i t
  pub meta : t.inode i ≡ record (s.inode i) { addrs = (t.inode i).addrs }
  pub sb : t.sb ≡ s.sb
  pub elsewhere : (j : ℕ) → j ≢ i → t.inode j ≡ s.inode j
  pub foreign :
      (m : ℕ)
      → IsForeign dev start i s m
      → (seen dev t m ≡ seen dev s m) × IsForeign dev start i t m

pub Extends-refl :
    {dev start i : ℕ} {s : Fs} → IsSound dev s → IsFile dev start i s → Extends dev start i s s
Extends-refl ok f = record {
  sound = ok;
  file = f;
  meta = refl;
  sb = refl;
  elsewhere = λ j ne. refl;
  foreign = λ m h. (refl, h);
}

pub Extends-trans :
    {dev start i : ℕ} {s t u : Fs}
    → Extends dev start i s t
    → Extends dev start i t u
    → Extends dev start i s u
Extends-trans {i = i} {u = u} p q = record {
  sound = q.sound;
  file = q.file;
  meta = q.meta ∙ ap {A = Inode} (λ x. record x { addrs = (u.inode i).addrs }) p.meta;
  sb = q.sb ∙ p.sb;
  elsewhere = λ j ne. q.elsewhere j ne ∙ p.elsewhere j ne;
  foreign = λ m h. let a = p.foreign m h in let b = q.foreign m a.1 in (b.0 ∙ a.0, b.1);
}

module _ {dev start i n : ℕ} {x : Block} {s t : Fs} (f : IsFile dev start i s)
    (w : Edited dev n x s t) (clear : (b : ℕ) → b < s.sb.size → bblock b s.sb ≢ n) where
  edited-used : (b : ℕ) → b < s.sb.size → used dev t b ≡ used dev s b
  edited-used b hb =
      ap (λ p. is_used (seen dev t (bblock b p)) (b % bpb)) w.sb
      ∙ ap (λ d. is_used d (b % bpb)) (w.others (bblock b s.sb) (nonzero f.laid b hb) (clear b hb))

  same_inode : t.inode i ≡ s.inode i
  same_inode = ap (λ g. g i) w.inode

  same_size : t.sb.size ≡ s.sb.size
  same_size = ap (λ x. x.size) w.sb

  edited-IsLaid : IsLaid dev start t
  edited-IsLaid = record {
    size = subst (λ y. y.size < 2 ^ 31) (sym w.sb) f.laid.size;
    room = omega (arith, f.laid.room, same_size);
    bitmap_end = subst (λ y. y.bmapstart < 2 ^ 31) (sym w.sb) f.laid.bitmap_end;
    bitmap =
        subst (λ y. (b : ℕ) → b < y.size → (0 < bblock b y) × (bblock b y < start)) (sym w.sb)
          f.laid.bitmap;
    own = λ b lt. edited-used b (omega (arith, f.laid.room)) ∙ f.laid.own b lt;
  }

  -- An edit of a block that is not one of the bitmap keeps the file.
  pub edited-IsFile : IsFile dev start i t
  edited-IsFile = record {
    laid = edited-IsLaid;
    on_dev = ap (λ y. y.dev) same_inode ∙ f.on_dev;
    at_home = subst (λ h. (0 < h) × (h < start)) (sym same_home) f.at_home;
    home_apart =
        subst (λ y. (b : ℕ) → b < y.size → bblock b y ≢ home t i) (sym w.sb)
          (λ b hb e. f.home_apart b hb (e ∙ same_home));
    below =
        subst (λ y. (m : ℕ) → m < ndirect → y.addrs m ≢ 0 → y.addrs m < t.sb.size) (sym same_inode)
          (λ m lt nz. omega (arith, f.below m lt nz, same_size));
    behind =
        subst (λ y. (m : ℕ) → m < ndirect → y.addrs m ≢ 0 → start ≤ y.addrs m) (sym same_inode)
          f.behind;
    taken =
        subst (λ y. (m : ℕ) → m < ndirect → y.addrs m ≢ 0 → used dev t (y.addrs m) ≡ true)
          (sym same_inode)
          (λ m lt nz. edited-used ((s.inode i).addrs m) (f.below m lt nz) ∙ f.taken m lt nz);
    apart =
        subst
          (λ y.
            (m k : ℕ) → m < ndirect → k < ndirect → y.addrs m ≢ 0 → y.addrs m ≡ y.addrs k → m ≡ k)
          (sym same_inode) f.apart;
  }
    where
      same_home : home t i ≡ home s i
      same_home = ap₂ (λ y z. (y.inum / 16 + z.inodestart) % 2 ^ 32) same_inode w.sb

  pub edited-Extends : ((m : ℕ) → IsForeign dev start i s m → m ≢ n) → Extends dev start i s t
  edited-Extends away = record {
    sound = w.sound;
    file = edited-IsFile;
    meta =
        same_inode ∙ ap {A = Inode} (λ y. record (s.inode i) { addrs = y.addrs }) (sym same_inode);
    sb = w.sb;
    elsewhere = λ j ne. ap (λ g. g j) w.inode;
    foreign = λ m h. (
      w.others m (λ z. omega (arith, f.at_home, h.behind, z)) (away m h),
      record {
        behind = h.behind;
        below = omega (arith, h.below, same_size);
        taken = edited-used m h.below ∙ h.taken;
        apart = λ k lt e. h.apart k lt (ap (λ y. y.addrs k) (sym same_inode) ∙ e);
      },
    );
  }

  same_addr : (m : ℕ) → (t.inode i).addrs m ≡ (s.inode i).addrs m
  same_addr m = ap (λ y. y.addrs m) same_inode

  -- An edit of a block that the file does not own leaves its bytes.
  pub edited-bytes_out :
      ((m : ℕ) → m < ndirect → (s.inode i).addrs m ≢ 0 → (s.inode i).addrs m ≢ n)
      → (j : ℕ) → j < capacity
      → byte_at dev i t j ≡ byte_at dev i s j
  unfolding byte_at
  edited-bytes_out out j lt =
      ap (λ a. held (seen dev t) a (j % bsize)) (same_addr (j / bsize))
      ∙ held-same (seen dev t) (seen dev s) ((s.inode i).addrs (j / bsize)) (j % bsize)
          (λ nz. w.others ((s.inode i).addrs (j / bsize)) nz (out (j / bsize) (omega arith) nz))

  -- An edit of block `bn` of the file changes the bytes of that block.
  pub edited-bytes :
      (bn : ℕ)
      → bn < ndirect
      → (s.inode i).addrs bn ≢ 0
      → (s.inode i).addrs bn ≡ n
      → (j : ℕ) → j < capacity
      → byte_at dev i t j ≡ (if j / bsize == bn then x (j % bsize) else byte_at dev i s j)
  unfolding byte_at
  edited-bytes bn hbn nz e j lt = elim (ℕ_discrete (j / bsize) bn) [
    | yes q ↦
        ap (λ a. held (seen dev t) a (j % bsize))
          (same_addr (j / bsize) ∙ ap (s.inode i).addrs q ∙ e)
        ∙ held-some (seen dev t) n (j % bsize) (λ z. nz (e ∙ z))
        ∙ ap (λ b. b (j % bsize)) w.self
        ∙ sym (if_then (j / bsize == bn) (x (j % bsize)) (byte_at dev i s j) (ground arith))
    | no ne ↦
        ap (λ a. held (seen dev t) a (j % bsize)) (same_addr (j / bsize))
        ∙ held-same (seen dev t) (seen dev s) ((s.inode i).addrs (j / bsize)) (j % bsize) (λ nz'.
          w.others ((s.inode i).addrs (j / bsize)) nz'
            (λ z. ne (sym (f.apart bn (j / bsize) hbn (omega arith) nz (e ∙ sym z)))))
        ∙ sym (if_else (j / bsize == bn) (x (j % bsize)) (byte_at dev i s j) (ground arith))
  ]
