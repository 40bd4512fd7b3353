-- ===== src/FileSystem/Blocks/Bits.antt =====
-- kernel/fs.c: what setting and clearing one bit of a bitmap block does to the bits.
use native.Mathlib.Nat.{pow-suc, div-div-eq-div-mul}
use riscvos.Common.{
  ℕ, zero, suc, ◌+◌, ◌-◌, ◌/◌, ◌%◌, ◌^◌, ◌≤◌, ◌≡◌, refl, sym, ap, ◌∙◌, true, false, arith, ◌==◌,
  if◌then◌else◌, ◌≢◌,
}
use riscvos.Storage.Bio.{Block}
use riscvos.FileSystem.Blocks.{is_used, mark, unmark}

-- Bit `a` of a number.
abbrev bit : ℕ → ℕ → ℕ
bit x a = x / 2 ^ a % 2

bit-zero : (x : ℕ) → bit x 0 ≡ x % 2
bit-zero x = omega arith

bit-suc : (x a : ℕ) → bit x (suc a) ≡ bit (x / 2) a
bit-suc x a =
    ap (λ k. x / k % 2) (pow-suc 2 a ∙ omega arith)
    ∙ ap (λ k. k % 2) (sym (div-div-eq-div-mul x 2 (2 ^ a)))

half-add : (x a : ℕ) → (x + 2 ^ suc a) / 2 ≡ x / 2 + 2 ^ a
half-add x a = omega (arith, pow-suc 2 a)

bit_set_self : (x a : ℕ) → bit x a ≡ 0 → bit (x + 2 ^ a) a ≡ 1
bit_set_self x zero h = omega (arith, bit-zero x, bit-zero (x + 1))
bit_set_self x (suc a) h =
    bit-suc (x + 2 ^ suc a) a
    ∙ ap (λ k. bit k a) (half-add x a)
    ∙ bit_set_self (x / 2) a (sym (bit-suc x a) ∙ h)

bit_set_ne : (x a b : ℕ) → bit x a ≡ 0 → a ≢ b → bit (x + 2 ^ a) b ≡ bit x b
bit_set_ne x zero zero h ne = absurd (ne refl)
bit_set_ne x zero (suc b) h ne =
    bit-suc (x + 1) b ∙ ap (λ k. bit k b) (omega (arith, bit-zero x)) ∙ sym (bit-suc x b)
bit_set_ne x (suc a) zero h ne = omega (arith, bit-zero x, bit-zero (x + 2 ^ suc a), pow-suc 2 a)
bit_set_ne x (suc a) (suc b) h ne =
    bit-suc (x + 2 ^ suc a) b
    ∙ ap (λ k. bit k b) (half-add x a)
    ∙ bit_set_ne (x / 2) a b (sym (bit-suc x a) ∙ h) (λ e. ne (ap suc e))
    ∙ sym (bit-suc x b)

bit_clear : (x a : ℕ) → bit x a ≡ 1 → 2 ^ a ≤ x
bit_clear x zero h = omega (arith, bit-zero x)
bit_clear x (suc a) h = omega (arith, bit_clear (x / 2) a (sym (bit-suc x a) ∙ h), pow-suc 2 a)

half-sub : (x a : ℕ) → 2 ^ suc a ≤ x → (x - 2 ^ suc a) / 2 ≡ x / 2 - 2 ^ a
half-sub x a h = omega (arith, pow-suc 2 a)

bit_clear_self : (x a : ℕ) → bit x a ≡ 1 → bit (x - 2 ^ a) a ≡ 0
bit_clear_self x zero h = omega (arith, bit-zero x, bit-zero (x - 1))
bit_clear_self x (suc a) h =
    bit-suc (x - 2 ^ suc a) a
    ∙ ap (λ k. bit k a) (half-sub x a (bit_clear x (suc a) h))
    ∙ bit_clear_self (x / 2) a (sym (bit-suc x a) ∙ h)

bit_clear_ne : (x a b : ℕ) → bit x a ≡ 1 → a ≢ b → bit (x - 2 ^ a) b ≡ bit x b
bit_clear_ne x zero zero h ne = absurd (ne refl)
bit_clear_ne x zero (suc b) h ne =
    bit-suc (x - 1) b ∙ ap (λ k. bit k b) (omega (arith, bit-zero x)) ∙ sym (bit-suc x b)
bit_clear_ne x (suc a) zero h ne =
    omega (arith, bit-zero x, bit-zero (x - 2 ^ suc a), pow-suc 2 a, bit_clear x (suc a) h)
bit_clear_ne x (suc a) (suc b) h ne =
    bit-suc (x - 2 ^ suc a) b
    ∙ ap (λ k. bit k b) (half-sub x a (bit_clear x (suc a) h))
    ∙ bit_clear_ne (x / 2) a b (sym (bit-suc x a) ∙ h) (λ e. ne (ap suc e))
    ∙ sym (bit-suc x b)

module _ (d : Block) (k j : ℕ) where
  -- Marking a clear bit sets it and leaves the others.
  pub mark_lem : is_used d k ≡ false → is_used (mark d k) j ≡ (if k == j then true else is_used d j)
  mark_lem h =
      ground (arith, bit_set_self (d (k / 8)) (k % 8), bit_set_ne (d (k / 8)) (k % 8) (j % 8))

  -- Clearing a bit that is set leaves the others.
  pub unmark_lem :
      is_used d k ≡ true → is_used (unmark d k) j ≡ (if k == j then false else is_used d j)
  unmark_lem h =
      ground (arith, bit_clear_self (d (k / 8)) (k % 8), bit_clear_ne (d (k / 8)) (k % 8) (j % 8))
