-- ===== src/Common/Outcome.antt =====
-- What a kernel call may do: return, stop the machine in `panic` with its message, or spin for ever in
-- the named loop.
use Prim.Native.String.{String}
use mathlib.Core.Path.{◌≡◌, refl}
use mathlib.Core.Bool.{Bool, true, false}
use mathlib.Core.Option.{Option, none, some}
use riscvos.Common.Tests.{if◌then◌else◌}

pub data Outcome {ℓ} (A : Type ℓ) : Type ℓ where
  done : A → Outcome A
  panic : String → Outcome A
  hang : String → Outcome A

infixl 5 ◌>>=◌
abbrev pub ◌>>=◌ {ℓ κ} : {A : Type ℓ} {B : Type κ} → Outcome A → (A → Outcome B) → Outcome B
done a >>= f = f a
panic s >>= f = panic s
hang s >>= f = hang s

-- Inversion of a successful sequence.
pub >>=-eq-done {ℓ κ} :
    {A : Type ℓ} {B : Type κ} (m : Outcome A) (f : A → Outcome B) {b : B}
    → (m >>= f) ≡ done b
    → (a : A) × (m ≡ done a) × (f a ≡ done b)
>>=-eq-done (done a) f h = (a, refl, h)
>>=-eq-done (panic s) f h = cc
>>=-eq-done (hang s) f h = cc

-- A sequence of calls that return.
pub >>=-done {ℓ κ} :
    {A : Type ℓ} {B : Type κ} (m : Outcome A) (f : A → Outcome B) {a : A} {b : B}
    → m ≡ done a
    → f a ≡ done b
    → (m >>= f) ≡ done b
>>=-done m f e e' = rw e e'

-- A call does not spin for ever, and what it ensures if it returns.
pub data Ensures {ℓ κ} {A : Type ℓ} (Q : A → Type κ) : Outcome A → Type (ℓ ⊔ κ) where
  returns : {a : A} → Q a → Ensures Q (done a)
  panics : {s : String} → Ensures Q (panic s)

module _ {ℓ κ} {A : Type ℓ} {Q : A → Type κ} where
  pub Ensures-done : {a : A} → Ensures Q (done a) → Q a
  Ensures-done (returns q) = q

  pub Ensures-imp {μ} :
      {P : A → Type μ} {m : Outcome A} → ((a : A) → P a → Q a) → Ensures P m → Ensures Q m
  Ensures-imp f (returns {a} p) = returns (f a p)
  Ensures-imp f panics = panics

  -- What is known of the result if the call returns, added to what the call ensures.
  pub Ensures-when {μ} :
      {P : A → Type μ} {m : Outcome A}
      → Ensures P m
      → ((a : A) → P a → m ≡ done a → Q a)
      → Ensures Q m
  Ensures-when (returns {a} p) f = returns (f a p refl)
  Ensures-when panics f = panics

  pub Ensures->>= {μ ν} :
      {B : Type μ} {P : B → Type ν} {m : Outcome B} {f : B → Outcome A}
      → Ensures P m
      → ((b : B) → P b → Ensures Q (f b))
      → Ensures Q (m >>= f)
  Ensures->>= (returns {a} p) k = k a p
  Ensures->>= panics k = panics

  pub Ensures-if :
      (b : Bool) {x y : Outcome A}
      → (b ≡ true → Ensures Q x)
      → (b ≡ false → Ensures Q y)
      → Ensures Q (if b then x else y)
  Ensures-if true f g = f refl
  Ensures-if false f g = g refl

  pub Ensures-option {μ} :
      {B : Type μ} (o : Option B) {x : Outcome A} {f : B → Outcome A}
      → (o ≡ none → Ensures Q x)
      → ((b : B) → o ≡ some b → Ensures Q (f b))
      → Ensures Q (elim o [ none ↦ x | some b ↦ f b ])
  Ensures-option none g h = g refl
  Ensures-option (some b) g h = h b refl

  pub Ensures-bool :
      (b : Bool) {x y : Outcome A}
      → (b ≡ true → Ensures Q x)
      → (b ≡ false → Ensures Q y)
      → Ensures Q (elim b [ true ↦ x | false ↦ y ])
  Ensures-bool true f g = f refl
  Ensures-bool false f g = g refl

-- A call that does not spin for ever.
abbrev pub Settles {ℓ} : {A : Type ℓ} → Outcome A → Type ℓ
Settles m = Ensures (λ _. Unit {0}) m
