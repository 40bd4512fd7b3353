-- ===== src/Console/Printf.antt =====
-- kernel/printf.c, kernel/console.c and kernel/uart.c: what is sent to the serial line. A character is its
-- code; `uart_putc` waits until the device takes it, so the line is the list of what was sent.
pub mod Digits
use Prim.Native.Char.{code}
use Prim.Native.String.{String}
use riscvos.Common.{
  ℕ, zero, suc, ◌+◌, ◌-◌, ◌*◌, ◌/◌, ◌%◌, ◌^◌, Bool, true, false, Option, none, some, List, [], ◌∷◌,
  ◌++◌, length, ltb, ◌||◌, ◌==◌, if◌then◌else◌,
}
use riscvos.Common.Word.{slt}

-- The arguments of a format.
pub data Arg : Type 0 where
  number : ℕ → Arg
  text : Option (List ℕ) → Arg

abbrev pub codes : String → List ℕ
codes String.[] = []
codes (String.◌∷◌ c s) = code c ∷ codes s

-- `prints`.
unfoldable pub prints : Option (List ℕ) → List ℕ
prints none = 40 ∷ 110 ∷ 117 ∷ 108 ∷ 108 ∷ 41 ∷ []
prints (some s) = s

-- The loop of `printu` that fills `buf`, least digit first; 64 rounds are enough for any base.
unfoldable pub printu_digits : ℕ → ℕ → ℕ → List ℕ
printu_digits zero base x = []
printu_digits (suc k) base x =
    let rest = printu_digits k base (x / base) in
    if x == 0
    then []
    else (if ltb (x % base) 10 then 48 + x % base else 97 + (x % base - 10)) ∷ rest

-- `while(i-- > 0) outc(buf[i], cnt)`.
unfoldable pub outc_back : List ℕ → List ℕ
outc_back [] = []
outc_back (c ∷ cs) = outc_back cs ++ (c ∷ [])

unfoldable pub printu : ℕ → ℕ → List ℕ
printu x base = if x == 0 then 48 ∷ [] else outc_back (printu_digits 64 base x)

-- `printd` of an `int`, from its 32-bit pattern: the cast widens it first, so the test for the minimum never holds.
unfoldable pub printd : ℕ → List ℕ
unfolding printu
printd v = if slt v 0 then 45 ∷ printu (2 ^ 32 - v % 2 ^ 32) 10 else printu v 10

-- `%%`, and the default case.
abbrev literal : ℕ → List ℕ
literal f = if f == 37 then 37 ∷ [] else 37 ∷ f ∷ []

-- A conversion: its output and the arguments that are left. A missing or ill-typed argument is undefined in C; the
-- model ends the output there.
unfoldable pub print_arg : ℕ → List Arg → Option (List ℕ × List Arg)
unfolding printd printu prints
print_arg f (number v ∷ rest) =
    if f == 100
    then some (printd (v % 2 ^ 32), rest)
    else (if f == 120
        then some (printu (v % 2 ^ 32) 16, rest)
        else (if f == 112
            then some (48 ∷ 120 ∷ printu v 16, rest)
            else (if f == 99
                then some ((v % 256) ∷ [], rest)
                else (if f == 115 then none else some (literal f, number v ∷ rest)))))
print_arg f (text s ∷ rest) =
    if f == 115
    then some (prints s, rest)
    else (if f == 100 || f == 120 || f == 112 || f == 99
        then none
        else some (literal f, text s ∷ rest))
print_arg f [] =
    if f == 115 || f == 100 || f == 120 || f == 112 || f == 99 then none else some (literal f, [])

-- The loop of `printf` over the format.
unfoldable pub printf : List ℕ → List Arg → List ℕ
unfolding print_arg
printf [] args = []
printf (c ∷ []) args = if c == 37 then [] else c ∷ []
printf (c ∷ f ∷ fmt) args = elim (c == 37) [
  | true ↦ elim (print_arg f args) [ none ↦ [] | some r ↦ r.0 ++ printf fmt r.1 ]
  | false ↦ c ∷ printf (f ∷ fmt) args
]

-- `console_putc`: a line feed is sent behind a carriage return.
unfoldable pub console_putc : ℕ → List ℕ → List ℕ
console_putc c line = if c == 10 then line ++ (13 ∷ 10 ∷ []) else line ++ (c ∷ [])

unfoldable pub console_puts : List ℕ → List ℕ → List ℕ
unfolding console_putc
console_puts [] line = line
console_puts (c ∷ cs) line = console_puts cs (console_putc c line)

unfoldable pub clear_screen : List ℕ → List ℕ
unfolding console_puts
clear_screen line = console_puts (27 ∷ 91 ∷ 50 ∷ 74 ∷ 27 ∷ 91 ∷ 72 ∷ []) line
