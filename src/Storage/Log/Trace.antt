-- ===== src/Storage/Log/Trace.antt =====
-- kernel/log.c: the writes that `write_log` and `install_trans` send to the disk, in order.
use native.Mathlib.Decide.{ℕ_discrete}
use riscvos.Common.{
  ℕ, zero, suc, ◌+◌, ◌*◌, ◌<◌, ◌≤◌, ◌^◌, ◌≡◌, refl, ◌≢◌, ◌∙◌, ◌⊎◌, inl, Bool, List, ◌∷◌, arith, sym,
  ap₂, ap, subst,
}
use riscvos.Common.Outcome.{done, >>=-eq-done}
use riscvos.Storage.Bio.{Block, Bcache}
use riscvos.Storage.Bio.Invariant.{IsValid, view}
use riscvos.Storage.Bio.Ops.{Below}
use riscvos.Storage.Log.{Log, slot, log_entry, write_log_from, install_entry, install_from}
use riscvos.Storage.Log.Copy.{log_entry-Copied, install_entry-Copied}

-- The log area is `start`, …, `start + size - 1`; what is logged lies outside it.
pub record IsPlaced (l : Log) : Type 0 where
  pub after_boot : 0 < l.start
  pub fits : l.start + l.size < 2 ^ 31
  pub few : l.n < l.size
  pub home : (i : ℕ) → i < l.n → (l.block i < l.start) ⊎ (l.start + l.size ≤ l.block i)
  pub home_ne_zero : (i : ℕ) → i < l.n → l.block i ≢ 0

pub slot_eq : {l : Log} → IsPlaced l → (i : ℕ) → i < l.n → slot l i ≡ l.start + i + 1
slot_eq w i h = omega (arith, w.fits, w.few)

-- The requests for entries `tail`, …, in front of those made before.
abbrev pub logged : Log → (ℕ → Block) → ℕ → ℕ → List (ℕ × Block) → List (ℕ × Block)
logged l x tail zero w = w
logged l x tail (suc k) w = logged l x (tail + 1) k ((slot l tail, x tail) ∷ w)

abbrev pub installed : Log → (ℕ → Block) → ℕ → ℕ → List (ℕ × Block) → List (ℕ × Block)
installed l x tail zero w = w
installed l x tail (suc k) w = installed l x (tail + 1) k ((l.block tail, x tail) ∷ w)

-- The requests for entries depend on those entries alone.
pub installed_congr :
    (l l' : Log) (x x' : ℕ → Block) (tail k : ℕ) (w : List (ℕ × Block))
    → ((i : ℕ) → tail ≤ i → i < tail + k → l.block i ≡ l'.block i)
    → ((i : ℕ) → tail ≤ i → i < tail + k → x i ≡ x' i)
    → installed l x tail k w ≡ installed l' x' tail k w
installed_congr l l' x x' tail zero w hb hx = refl
installed_congr l l' x x' tail (suc k) w hb hx =
    ap₂ (λ b y. installed l x (tail + 1) k ((b, y) ∷ w)) (hb tail (omega arith) (omega arith))
      (hx tail (omega arith) (omega arith))
    ∙ installed_congr l l' x x' (tail + 1) k _ (λ i lo hi. hb i (omega arith) (omega arith))
        (λ i lo hi. hx i (omega arith) (omega arith))

-- What `write_log` leaves, started at entry `tail` with `k` entries left; `x i` is the new contents
-- of the block of entry `i`.
pub record Logged (l : Log) (x : ℕ → Block) (tail k r : ℕ) (c c' : Bcache) : Type 0 where
  pub valid : IsValid l.dev c'
  pub image : c'.image ≡ c.image
  pub written : c'.written ≡ logged l x tail k c.written
  pub below : Below (r + 2 * k) c'
  pub kept :
      (m : ℕ)
      → m ≢ 0
      → (m ≤ l.start + tail) ⊎ (l.start + tail + k < m)
      → view l.dev c' m ≡ view l.dev c m
  pub copied : (i : ℕ) → tail ≤ i → i < tail + k → view l.dev c' (slot l i) ≡ x i

module _ (l : Log) (x : ℕ → Block) (w : IsPlaced l) where
  abbrev Current : Bcache → Type 0
  Current c = (i : ℕ) → i < l.n → view l.dev c (l.block i) ≡ x i

  pub write_log_from-Logged :
      (k tail r : ℕ) (c c' : Bcache)
      → tail + k ≤ l.n
      → IsValid l.dev c
      → Current c
      → Below r c
      → r + 2 * k + 2 < 2 ^ 32
      → write_log_from l tail k c ≡ done c'
      → Logged l x tail k r c c'
  unfolding write_log_from
  write_log_from-Logged zero tail r c c' le v cur b small e =
      let eq : c ≡ c' = cc in
      rw (← eq) (record {
        valid = v;
        image = refl;
        written = refl;
        below = λ p. omega (arith, b p);
        kept = λ m h out. refl;
        copied = λ i lo hi. absurd (omega arith);
      })
  write_log_from-Logged (suc k) tail r c c' le v cur b small e =
      let (d, e₁, rest) = >>=-eq-done (log_entry l tail c) _ e in
      let s : slot l tail ≡ l.start + tail + 1 = slot_eq w tail (omega arith) in
      let s₀ : slot l tail ≢ 0 = omega arith in
      let ne : slot l tail ≢ l.block tail = omega (arith, w.home tail (omega arith), w.few) in
      let t =
        log_entry-Copied l tail v s₀ (w.home_ne_zero tail (omega arith)) ne b (omega arith) e₁ in
      let cur' : Current d = λ i h.
        t.view_ne (l.block i) (w.home_ne_zero i h) (omega (arith, w.home i h, w.few)) ∙ cur i h in
      let n =
        write_log_from-Logged k (tail + 1) (r + 2) d c' (omega arith) t.valid cur' t.below
          (omega arith) rest in
      record {
        valid = n.valid;
        image = n.image ∙ t.image;
        written =
            n.written
            ∙ ap (logged l x (tail + 1) k)
                (t.written ∙ ap (λ y. (slot l tail, y) ∷ c.written) (cur tail (omega arith)));
        below = λ p. omega (arith, n.below p);
        kept = λ m h out. n.kept m h (omega arith) ∙ t.view_ne m h (omega arith);
        copied = λ i lo hi. elim (ℕ_discrete tail i) [
          | yes eq ↦
              subst (λ j. view l.dev c' (slot l j) ≡ x j) eq
                (n.kept (slot l tail) s₀ (inl (omega arith)) ∙ t.view_dst ∙ cur tail (omega arith))
          | no ne ↦ n.copied i (omega arith) (omega arith)
        ];
      }

-- What `install_trans` leaves, started at entry `tail` with `k` entries left.
pub record Installed (l : Log) (x : ℕ → Block) (tail k r : ℕ) (c c' : Bcache) : Type 0 where
  pub valid : IsValid l.dev c'
  pub image : c'.image ≡ c.image
  pub written : c'.written ≡ installed l x tail k c.written
  pub below : Below (r + 2 * k) c'
  pub kept :
      (m : ℕ) → m ≢ 0 → ((i : ℕ) → i < l.n → l.block i ≢ m) → view l.dev c' m ≡ view l.dev c m

module _ (l : Log) (x : ℕ → Block) (w : IsPlaced l) (recovering : Bool) where
  abbrev InLog : Bcache → Type 0
  InLog c = (i : ℕ) → i < l.n → view l.dev c (slot l i) ≡ x i

  pub install_from-Installed :
      (k tail r : ℕ) (c c' : Bcache)
      → tail + k ≤ l.n
      → IsValid l.dev c
      → InLog c
      → Below r c
      → r + 2 * k + 2 < 2 ^ 32
      → install_from recovering l tail k c ≡ done c'
      → Installed l x tail k r c c'
  unfolding install_from
  install_from-Installed zero tail r c c' le v cur b small e =
      let eq : c ≡ c' = cc in
      rw (← eq) (record {
        valid = v;
        image = refl;
        written = refl;
        below = λ p. omega (arith, b p);
        kept = λ m h out. refl;
      })
  install_from-Installed (suc k) tail r c c' le v cur b small e =
      let (d, e₁, rest) = >>=-eq-done (install_entry recovering l tail c) _ e in
      let s : slot l tail ≡ l.start + tail + 1 = slot_eq w tail (omega arith) in
      let s₀ : slot l tail ≢ 0 = omega arith in
      let ne : slot l tail ≢ l.block tail = omega (arith, w.home tail (omega arith), w.few) in
      let t =
        install_entry-Copied l tail v s₀ (w.home_ne_zero tail (omega arith)) ne b (omega arith)
          recovering e₁ in
      let apart : (i : ℕ) → i < l.n → slot l i ≢ l.block tail =
        λ i h. omega (arith, slot_eq w i h, w.home tail (omega arith), w.few) in
      let cur' : InLog d =
        λ i h. t.view_ne (slot l i) (omega (arith, slot_eq w i h)) (apart i h) ∙ cur i h in
      let n =
        install_from-Installed k (tail + 1) (r + 2) d c' (omega arith) t.valid cur' t.below
          (omega arith) rest in
      record {
        valid = n.valid;
        image = n.image ∙ t.image;
        written =
            n.written
            ∙ ap (installed l x (tail + 1) k)
                (t.written ∙ ap (λ y. (l.block tail, y) ∷ c.written) (cur tail (omega arith)));
        below = λ p. omega (arith, n.below p);
        kept = λ m h out. n.kept m h out ∙ t.view_ne m h (λ z. out tail (omega arith) (sym z));
      }
