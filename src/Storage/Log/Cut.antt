-- ===== src/Storage/Log/Cut.antt =====
-- kernel/log.c: the points at which the power can fail in the course of a commit.
use riscvos.Common.{
  ℕ, zero, suc, ◌+◌, ◌<◌, ◌≤◌, ◌≡◌, refl, ◌⊎◌, inl, inr, List, ◌∷◌, arith, sym, ap, length,
}
use riscvos.Storage.Bio.{Block}
use riscvos.Storage.Log.{Log}
use riscvos.Storage.Log.Trace.{logged, installed}
use riscvos.Storage.Log.Commit.{sealed, committed}

-- The requests completed when the power failed: all but some of the newest.
pub data Cut (w : List (ℕ × Block)) : List (ℕ × Block) → Type 0 where
  here : Cut w w
  later : {y : ℕ × Block} {v : List (ℕ × Block)} → Cut w v → Cut w (y ∷ v)

Cut-cons : {w v : List (ℕ × Block)} {y : ℕ × Block} → Cut w (y ∷ v) → (w ≡ y ∷ v) ⊎ Cut w v
Cut-cons here = inl refl
Cut-cons (later c) = inr c

Cut-length : {w v : List (ℕ × Block)} → Cut w v → (w ≡ v) ⊎ (length w < length v)
Cut-length here = inl refl
Cut-length (later c) = elim (Cut-length c) [
  | inl e ↦ inr (omega (arith, ap length e))
  | inr lt ↦ inr (omega arith)
]

Cut-antisym : {w v : List (ℕ × Block)} → Cut w v → Cut v w → w ≡ v
Cut-antisym c d = elim (Cut-length c) [
  | inl e ↦ e
  | inr lt ↦ elim (Cut-length d) [ inl e ↦ sym e | inr gt ↦ absurd (omega arith) ]
]

module _ (l : Log) (x : ℕ → Block) (w : List (ℕ × Block)) where
  Cut-installed :
      (k tail : ℕ) (v : List (ℕ × Block))
      → Cut w (installed l x tail k v)
      → Cut w v ⊎ ((j : ℕ) × (j ≤ k) × (w ≡ installed l x tail j v))
  Cut-installed zero tail v c = inl c
  Cut-installed (suc k) tail v c =
      elim (Cut-installed k (tail + 1) ((l.block tail, x tail) ∷ v) c) [
        | inl d ↦ elim (Cut-cons d) [ inl e ↦ inr (1, omega arith, e) | inr d' ↦ inl d' ]
        | inr (j, le, e) ↦ inr (suc j, omega arith, e)
      ]

  Cut-logged :
      (k tail : ℕ) (v : List (ℕ × Block))
      → Cut w (logged l x tail k v)
      → Cut w v ⊎ ((j : ℕ) × (j ≤ k) × (w ≡ logged l x tail j v))
  Cut-logged zero tail v c = inl c
  Cut-logged (suc k) tail v c = elim (Cut-logged k (tail + 1) _ c) [
    | inl d ↦ elim (Cut-cons d) [ inl e ↦ inr (1, omega arith, e) | inr d' ↦ inl d' ]
    | inr (j, le, e) ↦ inr (suc j, omega arith, e)
  ]

-- How far a commit had come.
pub data During (l : Log) (h : Block) (x : ℕ → Block) (old w : List (ℕ × Block)) : Type 0 where
  preparing : (j : ℕ) → j ≤ l.n → w ≡ logged l x 0 j old → During l h x old w
  installing : (j : ℕ) → j ≤ l.n → w ≡ installed l x 0 j (sealed l h x old) → During l h x old w
  finished : w ≡ committed l h x old → During l h x old w

pub Cut-During :
    (l : Log) (h : Block) (x : ℕ → Block) (old w : List (ℕ × Block))
    → Cut old w
    → Cut w (committed l h x old)
    → During l h x old w
Cut-During l h x old w lo hi = elim (Cut-cons hi) [
  | inl e ↦ finished e
  | inr c ↦ elim (Cut-installed l x w l.n 0 (sealed l h x old) c) [
    | inr (j, le, e) ↦ installing j le e
    | inl d ↦ elim (Cut-cons d) [
      | inl e ↦ installing 0 (omega arith) e
      | inr p ↦ elim (Cut-logged l x w l.n 0 old p) [
        | inr (j, le, e) ↦ preparing j le e
        | inl q ↦ preparing 0 (omega arith) (Cut-antisym q lo)
      ]
    ]
  ]
]
