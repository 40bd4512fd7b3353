-- ===== src/User/Format.antt =====
-- user/ulib.c: `printf` of the user programs. What it gives to `write(1, …)` is the list of characters.
use riscvos.Common.{
  ℕ, ◌+◌, ◌%◌, ◌^◌, ◌≡◌, refl, ap, sym, ◌∙◌, true, false, Option, none, some, List, [], ◌∷◌, ◌++◌,
  ◌||◌, ◌==◌, if◌then◌else◌, arith, inl, inr, Bool-cases, Option-cases,
}
use riscvos.Console.Printf.{Arg, number, text, printd, printu, prints, print_arg, printf}
use riscvos.Console.Printf.Digits.{widen, printu-print_uint, printd-print_int}
use riscvos.User.Ulib.{print_uint, print_int}

unfoldable pub print_str : Option (List ℕ) → List ℕ
print_str none = 40 ∷ 110 ∷ 117 ∷ 108 ∷ 108 ∷ 41 ∷ []
print_str (some s) = s

-- The cases of the switch that take no argument.
abbrev pub plain : ℕ → List ℕ
plain f = if f == 37 then 37 ∷ [] else 37 ∷ f ∷ []

-- The switch: its output and the arguments that are left. A missing or ill-typed argument is undefined in C.
unfoldable pub convert : ℕ → List Arg → Option (List ℕ × List Arg)
unfolding print_str
convert f (number v ∷ rest) =
    if f == 100
    then some (print_int (widen (v % 2 ^ 32)), rest)
    else (if f == 120
        then some (print_uint (v % 2 ^ 32) 16, rest)
        else (if f == 112
            then some (48 ∷ 120 ∷ print_uint v 16, rest)
            else (if f == 115
                then none
                else (if f == 99
                    then some ((v % 256) ∷ [], rest)
                    else some (plain f, number v ∷ rest)))))
convert f (text s ∷ rest) =
    if f == 100 || f == 120 || f == 112 || f == 99
    then none
    else (if f == 115 then some (print_str s, rest) else some (plain f, text s ∷ rest))
convert f [] =
    if f == 100 || f == 120 || f == 112 || f == 115 || f == 99 then none else some (plain f, [])

-- The loop of `printf`: what it writes, and its count, which is one for each conversion.
unfoldable pub format : List ℕ → List Arg → List ℕ × ℕ
unfolding convert
format [] args = ([], 0)
format (c ∷ []) args = if c == 37 then ([], 0) else (c ∷ [], 1)
format (c ∷ f ∷ fmt) args = elim (c == 37) [
  | true ↦ elim (convert f args) [
    | none ↦ ([], 0)
    | some r ↦ let rest = format fmt r.1 in (r.0 ++ rest.0, rest.1 + 1)
  ]
  | false ↦ let rest = format (f ∷ fmt) args in (c ∷ rest.0, rest.1 + 1)
]

prints-print_str : (s : Option (List ℕ)) → prints s ≡ print_str s
unfolding prints print_str
prints-print_str none = refl
prints-print_str (some s) = refl

convert-print_arg : (f : ℕ) (args : List Arg) → print_arg f args ≡ convert f args
unfolding print_arg convert
convert-print_arg f (number v ∷ rest) =
    let d : printd (v % 2 ^ 32) ≡ print_int (widen (v % 2 ^ 32)) =
      printd-print_int (v % 2 ^ 32) (omega arith) in
    let x : printu (v % 2 ^ 32) 16 ≡ print_uint (v % 2 ^ 32) 16 =
      printu-print_uint (v % 2 ^ 32) 16 in
    let p : printu v 16 ≡ print_uint v 16 = printu-print_uint v 16 in rw (d, x, p) (ground arith)
convert-print_arg f (text s ∷ rest) = rw (prints-print_str s) (ground arith)
convert-print_arg f [] = ground arith

-- The user library's `printf` writes what the kernel's `printf` sends, for every format and all arguments.
pub format-printf : (fmt : List ℕ) (args : List Arg) → (format fmt args).0 ≡ printf fmt args
unfolding format printf
format-printf [] args = refl
format-printf (c ∷ []) args = ground arith
format-printf (c ∷ f ∷ fmt) args = elim (Bool-cases (c == 37)) [
  | inl y ↦ elim (Option-cases (print_arg f args)) [
    | inl e ↦ rw (y, e, sym (convert-print_arg f args) ∙ e, format, printf) refl
    | inr (r, e) ↦
        rw (y, e, sym (convert-print_arg f args) ∙ e, format, printf)
          (ap (λ z. r.0 ++ z) (format-printf fmt r.1))
  ]
  | inr n ↦ rw (n, format, printf) (ap (λ z. c ∷ z) (format-printf (f ∷ fmt) args))
]
