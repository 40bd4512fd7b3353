-- ===== src/User/Tests.antt =====
-- Digits at concrete numbers.
use riscvos.Common.{ℕ, ◌-◌, ◌^◌, ◌≡◌, refl, arith, [], ◌∷◌}
use riscvos.Console.Printf.{number, printf}
use riscvos.User.Format.{format, format-printf}
use riscvos.User.Ulib.{
  puts, strlen, print_uint, read_uint, read_uint-print_uint, fill_digits, put_back_first,
  digit_char,
}

abbrev answer : ℕ
answer = 255

read_uint-print_uint_example :
    (read_uint 10 (print_uint 255 10) 0 ≡ answer) × (read_uint 16 (print_uint 255 16) 0 ≡ answer)
read_uint-print_uint_example = read_uint-print_uint 255 (omega arith)

print_uint_test : print_uint 255 16 ≡ 102 ∷ 102 ∷ []
unfolding print_uint fill_digits put_back_first digit_char
print_uint_test = refl

-- "n=%d%c" of -42 and a line feed.
format-printf_example :
    (format (110 ∷ 61 ∷ 37 ∷ 100 ∷ 37 ∷ 99 ∷ []) (number (2 ^ 32 - 42) ∷ number 10 ∷ [])).0
    ≡ printf (110 ∷ 61 ∷ 37 ∷ 100 ∷ 37 ∷ 99 ∷ []) (number (2 ^ 32 - 42) ∷ number 10 ∷ [])
format-printf_example =
    format-printf (110 ∷ 61 ∷ 37 ∷ 100 ∷ 37 ∷ 99 ∷ []) (number (2 ^ 32 - 42) ∷ number 10 ∷ [])

puts_test : puts (104 ∷ 105 ∷ 0 ∷ 7 ∷ []) ≡ 104 ∷ 105 ∷ []
unfolding puts strlen
puts_test = refl
