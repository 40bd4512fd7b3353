-- ===== src/Storage/Bio/Boot.antt =====
-- kernel/bio.c: the cache that `binit` leaves.
use riscvos.Common.{ℕ, ◌≡◌, refl, List, arith}
use riscvos.Storage.Bio.{Block, disk_block, boot}
use riscvos.Storage.Bio.Invariant.{IsValid, view, view-not_loaded}
use riscvos.Storage.Bio.Ops.{Below}

module _ (image : ℕ → Block) (written : List (ℕ × Block)) where
  pub boot-IsValid : IsValid 0 (boot image written)
  unfolding boot
  boot-IsValid = record {
    one_dev = λ p. ground arith;
    found = λ p h. absurd (h (ground arith));
    coherent = λ p v d. ground arith;
  }

  -- Nothing is cached yet: the kernel sees the disk.
  pub view-boot : (n : ℕ) → view 0 (boot image written) n ≡ disk_block (boot image written) n
  unfolding boot
  view-boot n = view-not_loaded 0 (boot image written) n (λ p. ground arith)

  pub boot-Below : (r : ℕ) → Below r (boot image written)
  unfolding boot
  boot-Below r p = ground arith

  pub image-boot : (boot image written).image ≡ image
  unfolding boot
  image-boot = refl

  pub written-boot : (boot image written).written ≡ written
  unfolding boot
  written-boot = refl
