-- ===== src/FileSystem/Content/Slots.antt =====
-- kernel/fs.c: a block that `bmap` allocates for a file.
use native.Mathlib.Decide.{ℕ_discrete}
use riscvos.Common.{
  ℕ, ◌+◌, ◌/◌, ◌%◌, ◌^◌, ◌<◌, ◌≤◌, ◌≡◌, refl, ◌≢◌, ◌∙◌, sym, ap, ap₂, subst, arith, true, ◌==◌, not,
  ltb, if◌then◌else◌, update, update_self, update_ne,
}
use riscvos.Common.Outcome.{Ensures, returns, Ensures->>=, Ensures-if}
use riscvos.FileSystem.{Fs, Inode, bsize, bblock, ndirect}
use riscvos.FileSystem.Blocks.{balloc}
use riscvos.FileSystem.Edits.{IsSound, seen}
use riscvos.FileSystem.Blocks.Alloc.{used, IsLaid, Allocated, Allocated-IsLaid, balloc-Allocated}
use riscvos.FileSystem.Inodes.Reload.{home}
use riscvos.FileSystem.Content.{set_addr, addr_slot, bmap}
use riscvos.FileSystem.Content.Bytes.{held, held-same, held-some, byte_at, capacity}
use riscvos.FileSystem.Content.Files.{IsFile, Extends, Extends-refl}

module _ {dev start i bn : ℕ} {s : Fs} {r : ℕ × Fs} (f : IsFile dev start i s)
    (a : Allocated dev s r) (le : start ≤ r.0) (hbn : bn < ndirect)
    (free : (s.inode i).addrs bn ≡ 0) where
  abbrev filled : Fs
  filled = set_addr i bn r.0 r.1

  filled-inode : filled.inode i ≡ record (s.inode i) { addrs = update (s.inode i).addrs bn r.0 }
  filled-inode =
      update_self r.1.inode i (record (r.1.inode i) { addrs = update (r.1.inode i).addrs bn r.0 })
      ∙ ap (λ (g : ℕ → Inode). record (g i) { addrs = update (g i).addrs bn r.0 }) a.inode

  new_addr : (filled.inode i).addrs bn ≡ r.0
  new_addr = ap (λ y. y.addrs bn) filled-inode ∙ update_self (s.inode i).addrs bn r.0

  old_addr : (m : ℕ) → bn ≢ m → (filled.inode i).addrs m ≡ (s.inode i).addrs m
  old_addr m ne = ap (λ y. y.addrs m) filled-inode ∙ update_ne (s.inode i).addrs bn m r.0 ne

  filled-used :
      (b : ℕ) → b < s.sb.size → used dev filled b ≡ (if r.0 == b then true else used dev s b)
  filled-used b hb = a.bits b hb

  kept_used : (b : ℕ) → b < s.sb.size → used dev s b ≡ true → used dev filled b ≡ true
  kept_used b hb u = filled-used b hb ∙ ground arith

  same_size : filled.sb.size ≡ s.sb.size
  same_size = ap (λ y. y.size) a.sb

  -- No block in use is the new one.
  not_new : (m : ℕ) → used dev s m ≡ true → m ≢ r.0
  not_new m u e = cc (a.was_free, u, e)

  not_bitmap : (m b : ℕ) → start ≤ m → b < s.sb.size → m ≢ bblock b s.sb
  not_bitmap m b h hb e = omega (arith, f.laid.bitmap b hb, e, h)

  seen_kept : (m : ℕ) → start ≤ m → used dev s m ≡ true → seen dev filled m ≡ seen dev s m
  seen_kept m h u =
      a.others m (λ z. omega (arith, f.at_home, h, z)) (not_bitmap m r.0 h a.on_disk) (not_new m u)

  filled-IsLaid : IsLaid dev start filled
  filled-IsLaid =
      let l = Allocated-IsLaid r f.laid a in
      record {
        size = l.size;
        room = l.room;
        bitmap_end = l.bitmap_end;
        bitmap = l.bitmap;
        own = l.own;
      }

  same_home : home filled i ≡ home s i
  same_home = ap₂ (λ y z. (y.inum / 16 + z.inodestart) % 2 ^ 32) filled-inode a.sb

  -- Each address is the new one or an old one.
  by_slot :
      (P : ℕ → Type 0)
      → P r.0
      → ((m : ℕ) → m < ndirect → (s.inode i).addrs m ≢ 0 → P ((s.inode i).addrs m))
      → (m : ℕ) → m < ndirect
      → (filled.inode i).addrs m ≢ 0
      → P ((filled.inode i).addrs m)
  by_slot P new old m lt nz = elim (ℕ_discrete bn m) [
    | yes e ↦ subst P (sym (ap (filled.inode i).addrs (sym e) ∙ new_addr)) new
    | no ne ↦ subst P (sym (old_addr m ne)) (old m lt (λ z. nz (old_addr m ne ∙ z)))
  ]

  old_not_new : (m : ℕ) → m < ndirect → (s.inode i).addrs m ≢ r.0
  old_not_new m lt e = elim (ℕ_discrete ((s.inode i).addrs m) 0) [
    | yes z ↦ omega (arith, f.at_home, le, e, z)
    | no nz ↦ not_new ((s.inode i).addrs m) (f.taken m lt nz) e
  ]

  filled-apart :
      (m n : ℕ)
      → m < ndirect
      → n < ndirect
      → (filled.inode i).addrs m ≢ 0
      → (filled.inode i).addrs m ≡ (filled.inode i).addrs n
      → m ≡ n
  filled-apart m n hm hn nz e = elim (ℕ_discrete bn m) [
    | yes p ↦ elim (ℕ_discrete bn n) [
      | yes q ↦ sym p ∙ q
      | no q ↦ absurd (
          old_not_new n hn
            (sym (old_addr n q) ∙ sym e ∙ ap (filled.inode i).addrs (sym p) ∙ new_addr))
    ]
    | no p ↦ elim (ℕ_discrete bn n) [
      | yes q ↦
          absurd (
            old_not_new m hm
              (sym (old_addr m p) ∙ e ∙ ap (filled.inode i).addrs (sym q) ∙ new_addr))
      | no q ↦
          f.apart m n hm hn (λ z. nz (old_addr m p ∙ z)) (sym (old_addr m p) ∙ e ∙ old_addr n q)
    ]
  ]

  filled-IsFile : IsFile dev start i filled
  filled-IsFile = record {
    laid = filled-IsLaid;
    on_dev = ap (λ y. y.dev) filled-inode ∙ f.on_dev;
    at_home = subst (λ h. (0 < h) × (h < start)) (sym same_home) f.at_home;
    home_apart =
        subst (λ y. (b : ℕ) → b < y.size → bblock b y ≢ home filled i) (sym a.sb)
          (λ b hb e. f.home_apart b hb (e ∙ same_home));
    below =
        by_slot (λ x. x < filled.sb.size) (omega (arith, a.on_disk, same_size))
          (λ m lt nz. omega (arith, f.below m lt nz, same_size));
    behind = by_slot (λ x. start ≤ x) le f.behind;
    taken =
        by_slot (λ x. used dev filled x ≡ true) (filled-used r.0 a.on_disk ∙ ground arith)
          (λ m lt nz. kept_used ((s.inode i).addrs m) (f.below m lt nz) (f.taken m lt nz));
    apart = filled-apart;
  }

  filled-Extends : Extends dev start i s filled
  filled-Extends = record {
    sound = record { valid = a.sound.valid; log = a.sound.log };
    file = filled-IsFile;
    meta =
        filled-inode
        ∙ ap {A = Inode} (λ y. record (s.inode i) { addrs = y.addrs }) (sym filled-inode);
    sb = a.sb;
    elsewhere = λ j ne. update_ne r.1.inode i j _ (λ e. ne (sym e)) ∙ ap (λ g. g j) a.inode;
    foreign = λ m h. (
      seen_kept m h.behind h.taken,
      record {
        behind = h.behind;
        below = omega (arith, h.below, same_size);
        taken = kept_used m h.below h.taken;
        apart = λ k lt e. elim (ℕ_discrete bn k) [
          | yes q ↦ not_new m h.taken (sym e ∙ ap (filled.inode i).addrs (sym q) ∙ new_addr)
          | no ne ↦ h.apart k lt (sym (old_addr k ne) ∙ e)
        ];
      },
    );
  }

  -- The zeroes of the new block are what the file had there.
  filled-bytes : (j : ℕ) → j < capacity → byte_at dev i filled j ≡ byte_at dev i s j
  unfolding byte_at
  filled-bytes j lt = elim (ℕ_discrete bn (j / bsize)) [
    | yes q ↦
        ap (λ x. held (seen dev filled) x (j % bsize))
          (ap (filled.inode i).addrs (sym q) ∙ new_addr)
        ∙ held-some (seen dev filled) r.0 (j % bsize) (λ z. omega (arith, f.at_home, le, z))
        ∙ ap (λ b. b (j % bsize)) a.zeroed
        ∙ ap (λ x. held (seen dev s) x (j % bsize)) (sym (ap (s.inode i).addrs (sym q) ∙ free))
    | no ne ↦
        ap (λ x. held (seen dev filled) x (j % bsize)) (old_addr (j / bsize) ne)
        ∙ held-same (seen dev filled) (seen dev s) ((s.inode i).addrs (j / bsize)) (j % bsize)
            (λ nz.
              seen_kept ((s.inode i).addrs (j / bsize)) (f.behind (j / bsize) (omega arith) nz)
                (f.taken (j / bsize) (omega arith) nz))
  ]

-- What `bmap` leaves when it may allocate: a block of the file in its place, and the file's bytes as they were.
pub record Mapped (dev start i bn : ℕ) (s : Fs) (a : ℕ × Fs) : Type 0 where
  pub kept : Extends dev start i s a.1
  pub addr : (a.1.inode i).addrs bn ≡ a.0
  pub there : a.0 ≢ 0
  pub bytes : (j : ℕ) → j < capacity → byte_at dev i a.1 j ≡ byte_at dev i s j

pub bmap-Mapped :
    {dev start : ℕ} (i bn : ℕ) (s : Fs)
    → IsSound dev s
    → IsFile dev start i s
    → bn < ndirect
    → Ensures (Mapped dev start i bn s) (bmap i bn true s)
unfolding bmap addr_slot
bmap-Mapped {dev} {start} i bn s ok f h =
    Ensures-if (ltb bn ndirect)
      (λ _.
        Ensures-if (not ((s.inode i).addrs bn == 0))
          (λ nz. returns (record {
            kept = Extends-refl ok f;
            addr = refl;
            there = ground arith;
            bytes = λ j lt. refl;
          }))
          (λ z.
            let free : (s.inode i).addrs bn ≡ 0 = ground arith in
            Ensures->>=
              (subst (λ d. Ensures (λ r. Allocated dev s r × (start ≤ r.0)) (balloc d s))
                (sym f.on_dev) (balloc-Allocated s ok f.laid))
              (λ r (a, le). returns (record {
                kept = filled-Extends f a le h free;
                addr = new_addr f a le h free;
                there = λ z'. omega (arith, f.at_home, le, z');
                bytes = filled-bytes f a le h free;
              }))))
      (λ z. absurd (ground arith))
