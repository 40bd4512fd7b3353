-- ===== src/Console/Klog/Agree.antt =====
-- kernel/klog.c: a message in the ring buffer and on the console.
use riscvos.Common.{
  ℕ, ◌%◌, ◌^◌, ◌<◌, ◌≡◌, ◌≢◌, refl, sym, ap, ◌∙◌, inl, inr, Bool, true, false, not, Option, none,
  some, List, [], ◌∷◌, ◌++◌, ◌&&◌, ◌==◌, if◌then◌else◌, if_else, arith, Bool-cases,
}
use riscvos.Common.Word.{slt, inc32}
use riscvos.Console.Printf.{Arg, number, text, prints, printd, printu}
use riscvos.Console.Klog.{
  LogState, log_putc, log_puts, log_arg, log_format, log_print_num, klog, log_dump, level_name,
}
use riscvos.Console.Klog.Ring.{IsRing, keep, log_dump-log_puts}
use riscvos.Console.Klog.Shown.{shown, shown_arg, klog_shown}
use riscvos.Console.Klog.Digits.{log_puts-append, log_print_num-printu, log_int-printd}

-- No conversion of the format is `%x`, which `klog` does not write to the buffer.
abbrev pub no_hex : List ℕ → Bool
no_hex [] = true
no_hex (c ∷ []) = true
no_hex (c ∷ f ∷ fmt) = if c == 37 then not (f == 120) && no_hex fmt else no_hex (f ∷ fmt)

-- The numbers among the arguments are patterns of an `int` other than the minimum, which has no digits in the buffer.
abbrev pub Fits : List Arg → Type 0
Fits [] = Unit
Fits (number v ∷ rest) = (v < 2 ^ 32) × (v ≢ 2 ^ 31) × Fits rest
Fits (text s ∷ rest) = Fits rest

-- A conversion leaves arguments that fit.
abbrev Agrees : Option (List Arg × LogState) → Option (List ℕ × List Arg) → LogState → Type 0
Agrees none none s = Unit
Agrees (some r) (some q) s = (r.0 ≡ q.1) × (r.1 ≡ log_puts q.0 s) × Fits q.1
Agrees _ _ s = ⊥

log_arg-shown_arg :
    (f : ℕ) (args : List Arg) (s : LogState)
    → f == 120 ≡ false
    → Fits args
    → Agrees (log_arg f args s) (shown_arg f args) s
unfolding log_arg shown_arg log_puts prints
log_arg-shown_arg f [] s hex w = ground arith
log_arg-shown_arg f (number v ∷ rest) s hex w = elim (Bool-cases (f == 100)) [
  | inl y ↦ rw y (refl, log_int-printd v s w.0 w.1, w.2)
  | inr n ↦ ground arith
]
log_arg-shown_arg f (text t ∷ rest) s hex w = ground arith

-- The rest of a message after a conversion.
after_arg :
    (fmt : List ℕ) (a : Option (List Arg × LogState)) (b : Option (List ℕ × List Arg))
    (s : LogState)
    → Agrees a b s
    → ((args : List Arg) (t : LogState)
        → Fits args
        → log_format fmt args t ≡ log_puts (shown fmt args) t)
    → (elim a [ some r ↦ log_format fmt r.0 r.1 | none ↦ s ])
      ≡ log_puts (elim b [ none ↦ [] | some q ↦ q.0 ++ shown fmt q.1 ]) s
unfolding log_puts
after_arg fmt none none s g next = refl
after_arg fmt (some r) (some q) s g next =
    ap (λ x. log_format fmt x r.1) g.0
    ∙ ap (log_format fmt q.1) g.1
    ∙ next q.1 (log_puts q.0 s) g.2
    ∙ sym (log_puts-append q.0 (shown fmt q.1) s)
after_arg fmt none (some q) s g next = absurd g
after_arg fmt (some r) none s g next = absurd g

log_format-shown :
    (fmt : List ℕ) (args : List Arg) (s : LogState)
    → no_hex fmt ≡ true
    → Fits args
    → log_format fmt args s ≡ log_puts (shown fmt args) s
unfolding log_format shown log_puts
log_format-shown [] args s hex w = refl
log_format-shown (c ∷ []) args s hex w = ground arith
log_format-shown (c ∷ f ∷ fmt) args s hex w = elim (Bool-cases (c == 37)) [
  | inl y ↦
      let ok : (f == 120 ≡ false) × (no_hex fmt ≡ true) = ground (arith, hex, y) in
      rw (y, log_format, shown)
        (after_arg fmt (log_arg f args s) (shown_arg f args) s (log_arg-shown_arg f args s ok.0 w)
          (λ r t v. log_format-shown fmt r t ok.1 v))
  | inr n ↦
      let ok : no_hex (f ∷ fmt) ≡ true = ground (arith, hex, n) in
      rw (n, log_format, shown) (log_format-shown (f ∷ fmt) args (log_putc c s) ok w)
]

-- The heading on the console.
abbrev heading : ℕ → List ℕ → List ℕ
heading ts name = 91 ∷ (printd (ts % 2 ^ 32) ++ (93 ∷ 32 ∷ 91 ∷ (name ++ (93 ∷ 32 ∷ []))))

printd-printu : (n : ℕ) → n < 2 ^ 31 → printd (n % 2 ^ 32) ≡ printu n 10
unfolding printd
printd-printu n h =
    let same : n % 2 ^ 32 ≡ n = omega arith in
    let pos : slt n 0 ≡ false = ground arith in rw (same, pos) refl

-- The heading in the buffer.
abbrev headed : ℕ → List ℕ → LogState → LogState
headed ts name s =
    log_puts (93 ∷ 32 ∷ [])
      (log_puts name (log_puts (93 ∷ 32 ∷ 91 ∷ []) (log_print_num ts (log_putc 91 s))))

log_puts-heading :
    (ts : ℕ) (name : List ℕ) (s : LogState)
    → ts < 2 ^ 31
    → log_puts (heading ts name) s ≡ headed ts name s
unfolding log_puts
log_puts-heading ts name s h =
    let t = log_putc 91 s in
    let after : List ℕ = 93 ∷ 32 ∷ 91 ∷ (name ++ (93 ∷ 32 ∷ [])) in
    let put : log_puts (printd (ts % 2 ^ 32)) t ≡ log_print_num ts t =
      ap (λ cs. log_puts cs t) (printd-printu ts h)
      ∙ sym (log_print_num-printu ts t (omega arith)) in
    log_puts-append (printd (ts % 2 ^ 32)) after t
    ∙ ap (log_puts after) put
    ∙ log_puts-append name (93 ∷ 32 ∷ []) (log_puts (93 ∷ 32 ∷ 91 ∷ []) (log_print_num ts t))

-- The log without colours.
abbrev pub uncoloured : LogState → LogState
uncoloured s = record s { use_color = false }

klog_shown-heading :
    (level ts : ℕ) (fmt : List ℕ) (args : List Arg) (s : LogState)
    → s.enabled ≡ true
    → klog_shown level ts fmt args (uncoloured s) ≡ heading ts (level_name level) ++ shown fmt args
unfolding klog_shown
klog_shown-heading level ts fmt args s on = rw (on, klog_shown) refl

-- `klog` first counts its call.
abbrev counted : LogState → LogState
counted s = record s { total_logs = inc32 s.total_logs }

log_dump-count : (s : LogState) (n : ℕ) → log_dump (record s { count = n }) ≡ log_dump s
unfolding log_dump
log_dump-count s n = refl

-- The message that has been written is counted.
abbrev ended : LogState → LogState
ended s = record s { count = inc32 s.count }

klog-ended :
    (level ts : ℕ) (fmt : List ℕ) (args : List Arg) (s : LogState)
    → s.enabled ≡ true
    → klog level ts fmt args s
      ≡ ended (log_format fmt args (headed ts (level_name level) (counted s)))
unfolding klog
klog-ended level ts fmt args s on =
    if_else (not s.enabled) s
      (ended (log_format fmt args (headed ts (level_name level) (counted s)))) (ap not on)

log_dump-klog :
    (level ts : ℕ) (fmt : List ℕ) (args : List Arg) (s : LogState)
    → s.enabled ≡ true
    → ts < 2 ^ 31
    → no_hex fmt ≡ true
    → Fits args
    → log_dump (klog level ts fmt args s)
      ≡ log_dump (log_puts (heading ts (level_name level) ++ shown fmt args) (counted s))
log_dump-klog level ts fmt args s on h hex w =
    let name = level_name level in
    let t = headed ts name (counted s) in
    ap log_dump (klog-ended level ts fmt args s on)
    ∙ log_dump-count (log_format fmt args t) (inc32 (log_format fmt args t).count)
    ∙ ap log_dump (
        log_format-shown fmt args t hex w
        ∙ ap (log_puts (shown fmt args)) (sym (log_puts-heading ts name (counted s) h))
        ∙ sym (log_puts-append (heading ts name) (shown fmt args) (counted s)))

-- `klog` with a timestamp below 2^31, no `%x` in the format and no number -2^31: the ring buffer gets the message
-- that the console gets without its colours, so that `log_dump` shows its last 4095 characters behind the older ones.
pub klog-klog_shown :
    (level ts : ℕ) (fmt : List ℕ) (args : List Arg) (s : LogState)
    → s.enabled ≡ true
    → IsRing s
    → ts < 2 ^ 31
    → no_hex fmt ≡ true
    → Fits args
    → log_dump (klog level ts fmt args s)
      ≡ keep (log_dump s ++ klog_shown level ts fmt args (uncoloured s))
unfolding log_dump
klog-klog_shown level ts fmt args s on ring h hex w =
    log_dump-klog level ts fmt args s on h hex w
    ∙ (log_dump-log_puts (heading ts (level_name level) ++ shown fmt args) (counted s)
        (record { head_in = ring.head_in; tail_in = ring.tail_in })).0
    ∙ ap (λ cs. keep (log_dump s ++ cs)) (sym (klog_shown-heading level ts fmt args s on))
