-- ===== src/Console/Printf/Digits.antt =====
-- kernel/printf.c and user/ulib.c: the kernel and the user programs print a number alike.
use riscvos.Common.{
  if_then, if_else, subst, ◌≤◌, ℕ, zero, suc, ◌+◌, ◌-◌, ◌/◌, ◌%◌, ◌^◌, ◌<◌, ◌≡◌, refl, sym, ap, ◌∙◌,
  inl, inr, true, false, List, [], ◌∷◌, ◌++◌, arith, ltb, ◌==◌, if◌then◌else◌, Bool-cases,
}
use riscvos.Common.Word.{slt}
use riscvos.Console.Printf.{printu_digits, outc_back, printu, printd}
use riscvos.User.Ulib.{fill_digits, put_back_first, digit_char, print_uint, print_int}

printu_digits-fill_digits : (k base x : ℕ) → printu_digits k base x ≡ fill_digits k base x
unfolding printu_digits fill_digits digit_char
printu_digits-fill_digits zero base x = refl
printu_digits-fill_digits (suc k) base x =
    ground (arith, printu_digits-fill_digits k base (x / base))

outc_back-put_back_first : (cs : List ℕ) → outc_back cs ≡ put_back_first cs
unfolding outc_back put_back_first
outc_back-put_back_first [] = refl
outc_back-put_back_first (c ∷ cs) = ap (λ r. r ++ (c ∷ [])) (outc_back-put_back_first cs)

-- The kernel's `printu` writes the characters that the user library's `print_uint` writes, in every base.
pub printu-print_uint : (x base : ℕ) → printu x base ≡ print_uint x base
unfolding printu print_uint
printu-print_uint x base =
    ap (λ r. if x == 0 then 48 ∷ [] else r)
      (ap outc_back (printu_digits-fill_digits 64 base x)
        ∙ outc_back-put_back_first (fill_digits 64 base x))

-- An `int`, as the `long long` that it is converted to.
abbrev pub widen : ℕ → ℕ
widen v = if ltb v (2 ^ 31) then v else v + (2 ^ 64 - 2 ^ 32)

-- `%d` of an `int` sends the same characters from the kernel's `printd` and from the user library's `print_int`.
pub printd-print_int : (v : ℕ) → v < 2 ^ 32 → printd v ≡ print_int (widen v)
unfolding printd print_int
printd-print_int v h = elim (Bool-cases (ltb v (2 ^ 31))) [
  | inl y ↦
      let lt : v < 2 ^ 31 = ground arith in
      let pos : slt v 0 ≡ false = ground arith in
      let same : widen v ≡ v = if_then (ltb v (2 ^ 31)) v (v + (2 ^ 64 - 2 ^ 32)) y in
      let pos' : ltb (widen v) (2 ^ 63) ≡ true =
        subst (λ w. ltb w (2 ^ 63) ≡ true) (sym same) (ground arith) in
      if_else (slt v 0) (45 ∷ printu (2 ^ 32 - v % 2 ^ 32) 10) (printu v 10) pos
      ∙ printu-print_uint v 10
      ∙ ap (λ w. print_uint w 10) (sym same)
      ∙ sym (
          if_then (ltb (widen v) (2 ^ 63)) (print_uint (widen v) 10)
            (45 ∷ print_uint ((2 ^ 64 - widen v) % 2 ^ 64) 10) pos')
  | inr n ↦
      let ge : 2 ^ 31 ≤ v = ground arith in
      let neg : slt v 0 ≡ true = ground arith in
      let wide : widen v ≡ v + (2 ^ 64 - 2 ^ 32) =
        if_else (ltb v (2 ^ 31)) v (v + (2 ^ 64 - 2 ^ 32)) n in
      let neg' : ltb (widen v) (2 ^ 63) ≡ false =
        subst (λ w. ltb w (2 ^ 63) ≡ false) (sym wide) (ground arith) in
      let size : (2 ^ 32 - v % 2 ^ 32) ≡ (2 ^ 64 - widen v) % 2 ^ 64 =
        subst (λ w. (2 ^ 32 - v % 2 ^ 32) ≡ (2 ^ 64 - w) % 2 ^ 64) (sym wide) (omega arith) in
      if_then (slt v 0) (45 ∷ printu (2 ^ 32 - v % 2 ^ 32) 10) (printu v 10) neg
      ∙ ap (λ r. 45 ∷ r)
          (printu-print_uint (2 ^ 32 - v % 2 ^ 32) 10 ∙ ap (λ w. print_uint w 10) size)
      ∙ sym (
          if_else (ltb (widen v) (2 ^ 63)) (print_uint (widen v) 10)
            (45 ∷ print_uint ((2 ^ 64 - widen v) % 2 ^ 64) 10) neg')
]
