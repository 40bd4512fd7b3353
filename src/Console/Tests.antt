-- ===== src/Console/Tests.antt =====
-- The log buffer at concrete states.
use riscvos.Common.{◌-◌, ◌^◌, ◌≡◌, refl, true, [], ◌∷◌, ◌++◌, arith}
use riscvos.Console.Klog.{
  LogState, log_init, log_putc, log_puts, log_dump, dump_from, log_print_num, log_int, klog,
  num_digits, put_reversed, log_format, level_name, log_arg,
}
use riscvos.Console.Printf.{number}
use riscvos.Console.Klog.Ring.{IsRing, keep, log_dump-log_puts}
use riscvos.Console.Klog.Shown.{shown, klog_shown}
use riscvos.Console.Klog.Agree.{uncoloured, klog-klog_shown}

-- The buffer has wrapped: the head stands right behind the tail.
abbrev full : LogState
full = record {
  buffer = λ i. 120;
  head = 9;
  tail = 10;
  count = 3;
  total_logs = 3;
  dropped = 0;
  enabled = true;
  use_color = true;
}

full-IsRing : IsRing full
full-IsRing = record { head_in = omega arith; tail_in = omega arith }

log_dump-log_puts_example :
    (log_dump (log_puts (65 ∷ 66 ∷ []) full) ≡ keep (log_dump full ++ (65 ∷ 66 ∷ [])))
    × IsRing (log_puts (65 ∷ 66 ∷ []) full)
log_dump-log_puts_example = log_dump-log_puts (65 ∷ 66 ∷ []) full full-IsRing

-- "[7] [INFO ] n=-42".
klog_test :
    log_dump (klog 1 7 (110 ∷ 61 ∷ 37 ∷ 100 ∷ []) (number (4294967296 - 42) ∷ []) (log_init full))
    ≡ 91 ∷ 55 ∷ 93 ∷ 32 ∷ 91 ∷ 73 ∷ 78 ∷ 70 ∷ 79 ∷ 32 ∷ 93 ∷ 32 ∷ 110 ∷ 61 ∷ 45 ∷ 52 ∷ 50 ∷ []
unfolding klog log_dump dump_from log_init log_putc log_puts log_print_num log_int num_digits
    put_reversed log_format level_name log_arg
klog_test = refl

klog-klog_shown_example :
    log_dump (klog 1 7 (110 ∷ 61 ∷ 37 ∷ 100 ∷ []) (number (2 ^ 32 - 42) ∷ []) full)
    ≡ keep (
        log_dump full
        ++ klog_shown 1 7 (110 ∷ 61 ∷ 37 ∷ 100 ∷ []) (number (2 ^ 32 - 42) ∷ []) (uncoloured full))
klog-klog_shown_example =
    klog-klog_shown 1 7 (110 ∷ 61 ∷ 37 ∷ 100 ∷ []) (number (2 ^ 32 - 42) ∷ []) full refl full-IsRing
      (omega arith) refl (omega arith, (λ e. omega (arith, e)), tt)

-- "%x": the console gets the digits, the buffer nothing.
hex_test :
    (shown (37 ∷ 120 ∷ []) (number 255 ∷ []) ≡ 102 ∷ 102 ∷ [])
    × (log_dump (log_format (37 ∷ 120 ∷ []) (number 255 ∷ []) (log_init full)) ≡ [])
unfolding shown log_format log_arg log_dump dump_from log_init riscvos.Console.Printf.outc_back
    riscvos.Console.Printf.printu_digits
hex_test = (refl, refl)
