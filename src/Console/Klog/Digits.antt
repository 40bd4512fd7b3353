-- ===== src/Console/Klog/Digits.antt =====
-- kernel/klog.c: the digits in the ring buffer and on the console.
use riscvos.Common.{
  ℕ, zero, suc, ◌-◌, ◌/◌, ◌%◌, ◌^◌, ◌<◌, ◌≡◌, ◌≢◌, refl, sym, ap, ◌∙◌, inl, inr, false, List, [],
  ◌∷◌, ◌++◌, ◌==◌, if◌then◌else◌, arith, Bool-cases,
}
use riscvos.Common.Word.{slt, sub32}
use riscvos.Console.Printf.{printd, printu, printu_digits, outc_back}
use riscvos.Console.Klog.{
  LogState, log_putc, log_puts, log_int, log_print_num, num_digits, put_reversed,
}

pub log_puts-append :
    (xs ys : List ℕ) (s : LogState) → log_puts (xs ++ ys) s ≡ log_puts ys (log_puts xs s)
unfolding log_puts
log_puts-append [] ys s = refl
log_puts-append (x ∷ xs) ys s = log_puts-append xs ys (log_putc x s)

-- Both loops over the digits stop at the same one, if each has the rounds for it.
num_digits-printu_digits :
    (k j n : ℕ) → n < 10 ^ k → n < 10 ^ j → num_digits k n ≡ printu_digits j 10 n
unfolding num_digits printu_digits
num_digits-printu_digits zero zero n h g = refl
num_digits-printu_digits zero (suc j) n h g = ground arith
num_digits-printu_digits (suc k) zero n h g = ground arith
num_digits-printu_digits (suc k) (suc j) n h g =
    ground (arith, num_digits-printu_digits k j (n / 10) (omega arith) (omega arith))

put_reversed-log_puts : (ds : List ℕ) (s : LogState) → put_reversed ds s ≡ log_puts (outc_back ds) s
unfolding put_reversed log_puts outc_back
put_reversed-log_puts [] s = refl
put_reversed-log_puts (d ∷ ds) s =
    ap (log_putc d) (put_reversed-log_puts ds s) ∙ sym (log_puts-append (outc_back ds) (d ∷ []) s)

-- The digits of a number, from the loop with `k` rounds.
put_digits :
    (k j n : ℕ) (s : LogState)
    → n < 10 ^ k
    → n < 10 ^ j
    → put_reversed (num_digits k n) s ≡ log_puts (outc_back (printu_digits j 10 n)) s
put_digits k j n s h g =
    ap (λ ds. put_reversed ds s) (num_digits-printu_digits k j n h g)
    ∙ put_reversed-log_puts (printu_digits j 10 n) s

-- A number, its digit 0 included.
put_number :
    (k j n : ℕ) (s : LogState)
    → n < 10 ^ k
    → n < 10 ^ j
    → (if n == 0 then log_putc 48 s else put_reversed (num_digits k n) s)
      ≡ log_puts (if n == 0 then 48 ∷ [] else outc_back (printu_digits j 10 n)) s
unfolding log_puts
put_number k j n s h g = elim (Bool-cases (n == 0)) [
  | inl y ↦ rw y refl
  | inr m ↦ rw m (put_digits k j n s h g)
]

pub log_print_num-printu :
    (n : ℕ) (s : LogState) → n < 10 ^ 20 → log_print_num n s ≡ log_puts (printu n 10) s
unfolding log_print_num printu
log_print_num-printu n s h = put_number 20 64 n s h (omega arith)

-- The case `'d'`, for any number of rounds that is enough.
put_int :
    (k j v : ℕ) (s : LogState)
    → v < 2 ^ 32
    → v ≢ 2 ^ 31
    → 2 ^ 31 < 10 ^ k
    → 2 ^ 31 < 10 ^ j
    → (if slt v 0
        then (if slt (sub32 0 v) 0
            then log_putc 45 s
            else put_reversed (num_digits k (sub32 0 v)) (log_putc 45 s))
        else (if v == 0 then log_putc 48 s else put_reversed (num_digits k v) s))
      ≡ log_puts
          (if slt v 0
            then 45
              ∷ (if 2 ^ 32 - v % 2 ^ 32 == 0
                  then 48 ∷ []
                  else outc_back (printu_digits j 10 (2 ^ 32 - v % 2 ^ 32)))
            else (if v == 0 then 48 ∷ [] else outc_back (printu_digits j 10 v)))
          s
unfolding log_puts
put_int k j v s h ne a b = elim (Bool-cases (slt v 0)) [
  | inl y ↦
      let pos : slt (sub32 0 v) 0 ≡ false = ground arith in
      let size : sub32 0 v ≡ 2 ^ 32 - v % 2 ^ 32 = ground arith in
      let some_digit : (2 ^ 32 - v % 2 ^ 32 == 0) ≡ false = ground arith in
      rw (y, pos, size, some_digit)
        (put_digits k j (2 ^ 32 - v % 2 ^ 32) (log_putc 45 s) (ground arith) (ground arith))
  | inr n ↦ rw n (put_number k j v s (ground arith) (ground arith))
]

pub log_int-printd :
    (v : ℕ) (s : LogState)
    → v < 2 ^ 32
    → v ≢ 2 ^ 31
    → log_int v s ≡ log_puts (printd (v % 2 ^ 32)) s
unfolding log_int printd printu
log_int-printd v s h ne =
    put_int 10 64 v s h ne (omega arith) (omega arith)
    ∙ ap (λ w. log_puts (printd w) s) {x = v} {y = v % 2 ^ 32} (omega arith)
