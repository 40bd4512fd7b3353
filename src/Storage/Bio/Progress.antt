-- ===== src/Storage/Bio/Progress.antt =====
-- kernel/bio.c: when `bread` finds a buffer.
use native.Mathlib.Decide.{ℕ_discrete}
use riscvos.Common.{
  ℕ, ◌≡◌, refl, ◌≢◌, inl, inr, true, false, List, arith, Option-cases, subst, sym, ap, ◌∙◌,
}
use riscvos.Common.Outcome.{done}
use riscvos.Storage.Bio.{Block, Bcache, hit, victim, bget, fill, bread, boot}
use riscvos.Storage.Bio.Lookup.{listed, victim_found}
use riscvos.Storage.Bio.Invariant.{with_ref, recycled}
use riscvos.Storage.Bio.Ops.{Read}

-- A buffer that can be recycled.
pub record Idle (c : Bcache) (a : ℕ) : Type 0 where
  pub on_list : listed a c.lru ≡ true
  pub unused : (c.buf a).refcnt ≡ 0
  pub clean : (c.buf a).disk ≡ false

-- `bread` returns if some buffer on the list is unreferenced and clean.
pub bread-total :
    (dev n : ℕ) (c : Bcache) {a : ℕ} → Idle c a → (r : ℕ × Bcache) × (bread dev n c ≡ done r)
unfolding bread bget
bread-total dev n c {a} idle = elim (Option-cases (hit dev n c.buf c.lru)) [
  | inr (p, e) ↦ ((p, fill p (with_ref c p)), ground arith)
  | inl e ↦ elim (Option-cases (victim c.buf c.lru)) [
    | inl z ↦
        absurd (victim_found c.buf a c.lru idle.on_list (ground (arith, idle.unused, idle.clean)) z)
    | inr (p, z) ↦ ((p, fill p (recycled dev n c p)), ground arith)
  ]
]

-- Two buffers that can be recycled; reading a block takes one of them at most.
pub record Spare (c : Bcache) (a b : ℕ) : Type 0 where
  pub apart : a ≢ b
  pub first : Idle c a
  pub second : Idle c b

pub bread_twice-total :
    (dev m n : ℕ) (c : Bcache) {p a b : ℕ} {c' : Bcache}
    → Spare c a b
    → Read dev m c p c'
    → (r : ℕ × Bcache) × (bread dev n c' ≡ done r)
bread_twice-total dev m n c {p} {a} {b} {c'} s rd = elim (ℕ_discrete a p) [
  | yes e ↦ bread-total dev n c' (left b s.second (λ z. s.apart (e ∙ sym z)))
  | no ne ↦ bread-total dev n c' (left a s.first ne)
]
  where
    left : (x : ℕ) → Idle c x → x ≢ p → Idle c' x
    left x i ne = record {
      on_list = subst (λ u. listed x u ≡ true) (sym rd.lru) i.on_list;
      unused = ap (λ y. y.refcnt) (rd.others x ne) ∙ i.unused;
      clean = rd.clean x i.clean;
    }

pub boot-Spare : (image : ℕ → Block) (written : List (ℕ × Block)) → Spare (boot image written) 0 1
unfolding boot listed
boot-Spare image written = record {
  apart = omega arith;
  first = record { on_list = refl; unused = refl; clean = refl };
  second = record { on_list = refl; unused = refl; clean = refl };
}
