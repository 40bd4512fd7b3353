-- ===== src/User/Ulib.antt =====
-- user/ulib.c: strings, and the digits that `print_uint` writes. A string is the memory from its first
-- character on; what is written to the console is the list of characters.
use riscvos.Common.{
  ℕ, zero, suc, ◌+◌, ◌-◌, ◌*◌, ◌/◌, ◌%◌, ◌^◌, ◌<◌, ◌≡◌, refl, ap, subst, ◌∙◌, sym, List, [], ◌∷◌,
  ◌++◌, arith, ltb, ◌==◌, if◌then◌else◌, Bool-cases, inl, inr, take,
}
use riscvos.Common.Word.{rounds}

-- The loop of `memset` over the bytes of `dst`.
unfoldable pub memset : (ℕ → ℕ) → ℕ → ℕ → ℕ → ℕ
memset d c n i = if ltb i (rounds n) then c % 256 else d i

-- The loop of `strlen` over the memory from `s` on, which ends at the first zero.
unfoldable pub strlen : List ℕ → ℕ
strlen [] = 0
strlen (c ∷ cs) = let rest = strlen cs in if c == 0 then 0 else rest + 1

-- `write(1, s, strlen(s))`.
unfoldable pub puts : List ℕ → List ℕ
unfolding strlen
puts s = take (strlen s) s

unfoldable pub putc : ℕ → List ℕ
putc c = (c % 256) ∷ []

-- `'0' + d` or `'a' + d - 10`.
unfoldable pub digit_char : ℕ → ℕ
digit_char d = if ltb d 10 then 48 + d else 97 + d - 10

-- The loop that fills `buf`, least digit first; 64 rounds are enough for any base.
unfoldable pub fill_digits : ℕ → ℕ → ℕ → List ℕ
unfolding digit_char
fill_digits zero base x = []
fill_digits (suc k) base x =
    let rest = fill_digits k base (x / base) in if x == 0 then [] else digit_char (x % base) ∷ rest

-- The loop that takes `buf` from its end.
unfoldable pub put_back_first : List ℕ → List ℕ
put_back_first [] = []
put_back_first (c ∷ cs) = put_back_first cs ++ (c ∷ [])

unfoldable pub print_uint : ℕ → ℕ → List ℕ
print_uint x base = if x == 0 then 48 ∷ [] else put_back_first (fill_digits 64 base x)

-- `print_int` of a 64-bit pattern: the minimum is printed as the unsigned number that it negates to.
unfoldable pub print_int : ℕ → List ℕ
unfolding print_uint
print_int x = if ltb x (2 ^ 63) then print_uint x 10 else 45 ∷ print_uint ((2 ^ 64 - x) % 2 ^ 64) 10

-- A number read from its digits, first digit first.
abbrev pub digit_value : ℕ → ℕ
digit_value c = if ltb c 58 then c - 48 else c - 87

abbrev pub read_uint : ℕ → List ℕ → ℕ → ℕ
read_uint base [] acc = acc
read_uint base (c ∷ cs) acc = read_uint base cs (acc * base + digit_value c)

read_uint-snoc :
    (base : ℕ) (xs : List ℕ) (c acc : ℕ)
    → read_uint base (xs ++ (c ∷ [])) acc ≡ read_uint base xs acc * base + digit_value c
read_uint-snoc base [] c acc = refl
read_uint-snoc base (x ∷ xs) c acc = read_uint-snoc base xs c (acc * base + digit_value x)

digit_value-digit_char : (d : ℕ) → d < 16 → digit_value (digit_char d) ≡ d
unfolding digit_char
digit_value-digit_char d h = ground arith

fill_digits-value_10 :
    (k x : ℕ) → x < 2 ^ k → read_uint 10 (put_back_first (fill_digits k 10 x)) 0 ≡ x
unfolding fill_digits put_back_first
fill_digits-value_10 zero x h = ground arith
fill_digits-value_10 (suc k) x h = elim (Bool-cases (x == 0)) [
  | inl y ↦ rw y (ground arith)
  | inr n ↦
      let small : x / 10 < 2 ^ k = omega arith in
      rw n (
        read_uint-snoc 10 (put_back_first (fill_digits k 10 (x / 10))) (digit_char (x % 10)) 0
        ∙ ap (λ v. v * 10 + digit_value (digit_char (x % 10)))
            (fill_digits-value_10 k (x / 10) small)
        ∙ omega (arith, digit_value-digit_char (x % 10) (omega arith)))
]

fill_digits-value_16 :
    (k x : ℕ) → x < 2 ^ k → read_uint 16 (put_back_first (fill_digits k 16 x)) 0 ≡ x
unfolding fill_digits put_back_first
fill_digits-value_16 zero x h = ground arith
fill_digits-value_16 (suc k) x h = elim (Bool-cases (x == 0)) [
  | inl y ↦ rw y (ground arith)
  | inr n ↦
      let small : x / 16 < 2 ^ k = omega arith in
      rw n (
        read_uint-snoc 16 (put_back_first (fill_digits k 16 (x / 16))) (digit_char (x % 16)) 0
        ∙ ap (λ v. v * 16 + digit_value (digit_char (x % 16)))
            (fill_digits-value_16 k (x / 16) small)
        ∙ omega (arith, digit_value-digit_char (x % 16) (omega arith)))
]

-- The digits that `print_uint` writes of a 64-bit number, in base 10 and in base 16, stand for that number.
pub read_uint-print_uint :
    (x : ℕ)
    → x < 2 ^ 64
    → (read_uint 10 (print_uint x 10) 0 ≡ x) × (read_uint 16 (print_uint x 16) 0 ≡ x)
unfolding print_uint
read_uint-print_uint x h = elim (Bool-cases (x == 0)) [
  | inl y ↦ (
    subst (λ b. read_uint 10 (if b then 48 ∷ [] else put_back_first (fill_digits 64 10 x)) 0 ≡ x)
        (sym y) (ground arith),
    subst (λ b. read_uint 16 (if b then 48 ∷ [] else put_back_first (fill_digits 64 16 x)) 0 ≡ x)
        (sym y) (ground arith),
  )
  | inr n ↦ (
    subst (λ b. read_uint 10 (if b then 48 ∷ [] else put_back_first (fill_digits 64 10 x)) 0 ≡ x)
        (sym n) (fill_digits-value_10 64 x h),
    subst (λ b. read_uint 16 (if b then 48 ∷ [] else put_back_first (fill_digits 64 16 x)) 0 ≡ x)
        (sym n) (fill_digits-value_16 64 x h),
  )
]
