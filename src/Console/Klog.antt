-- ===== src/Console/Klog.antt =====
-- kernel/klog.c: the ring buffer of log messages. A character is its code, a string the list of its
-- characters before the NUL. What `printf` shows on the console is in Klog/Shown. The
-- timestamp that `get_timestamp` computes is an argument.
pub mod Ring
pub mod Shown
pub mod Digits
pub mod Agree
use riscvos.Common.{
  ℕ, zero, suc, ◌+◌, ◌-◌, ◌/◌, ◌%◌, ◌^◌, Bool, true, false, not, Option, none, some, List, [], ◌∷◌,
  ◌++◌, ltb, ◌==◌, if◌then◌else◌, update,
}
use riscvos.Console.Printf.{Arg, number, text, codes, printf}
use riscvos.Common.Word.{inc32, slt, sub32}

abbrev pub log_bufsize : ℕ
log_bufsize = 4096

pub record LogState : Type 0 where
  pub buffer : ℕ → ℕ
  pub head : ℕ
  pub tail : ℕ
  pub count : ℕ
  pub total_logs : ℕ
  pub dropped : ℕ
  pub enabled : Bool
  pub use_color : Bool

unfoldable pub log_putc : ℕ → LogState → LogState
log_putc c s =
    let h = (s.head + 1) % log_bufsize in
    let s' = record s { buffer = update s.buffer s.head c; head = h } in
    if h == s.tail
    then record s' { tail = (s.tail + 1) % log_bufsize; dropped = inc32 s.dropped }
    else s'

unfoldable pub log_puts : List ℕ → LogState → LogState
log_puts [] s = s
log_puts (c ∷ cs) s = log_puts cs (log_putc c s)

-- The loop that fills `buf` with the digits of a number, least first; a `uint64_t` has at most 20.
unfoldable pub num_digits : ℕ → ℕ → List ℕ
num_digits zero n = []
num_digits (suc k) n =
    let rest = num_digits k (n / 10) in if n == 0 then [] else (48 + n % 10) ∷ rest

-- The loop that takes `buf` from its end.
unfoldable pub put_reversed : List ℕ → LogState → LogState
put_reversed [] s = s
put_reversed (d ∷ ds) s = log_putc d (put_reversed ds s)

unfoldable pub log_print_num : ℕ → LogState → LogState
unfolding num_digits put_reversed
log_print_num n s = if n == 0 then log_putc 48 s else put_reversed (num_digits 20 n) s

-- The case `'d'` of `klog`: the minimum stays negative when it is negated, and has no digits.
unfoldable pub log_int : ℕ → LogState → LogState
unfolding num_digits put_reversed
log_int val s =
    if slt val 0
    then (let v = sub32 0 val in
        if slt v 0 then log_putc 45 s else put_reversed (num_digits 10 v) (log_putc 45 s))
    else (if val == 0 then log_putc 48 s else put_reversed (num_digits 10 val) s)

-- A conversion: the state after it and the arguments that are left. No argument for a conversion is
-- undefined in C; the model stops the message there.
unfoldable pub log_arg : ℕ → List Arg → LogState → Option (List Arg × LogState)
unfolding log_int log_puts
log_arg f args s =
    if f == 100
    then take_number args (λ v. log_int v s)
    else (if f == 120
        then take_number args (λ v. s)
        else (if f == 115
            then take_text args (λ t. log_puts t s)
            else (if f == 99
                then take_number args (λ v. log_putc (v % 256) s)
                else (if f == 37
                    then some (args, log_putc 37 s)
                    else some (args, log_putc f (log_putc 37 s))))))
  where
    take_number : List Arg → (ℕ → LogState) → Option (List Arg × LogState)
    take_number (number v ∷ rest) k = some (rest, k v)
    take_number _ k = none

    take_text : List Arg → (List ℕ → LogState) → Option (List Arg × LogState)
    take_text (text (some t) ∷ rest) k = some (rest, k t)
    take_text (text none ∷ rest) k = some (rest, k (40 ∷ 110 ∷ 117 ∷ 108 ∷ 108 ∷ 41 ∷ []))
    take_text _ k = none

-- The loop over the format.
unfoldable pub log_format : List ℕ → List Arg → LogState → LogState
unfolding log_arg
log_format [] args s = s
log_format (c ∷ []) args s = if c == 37 then s else log_putc c s
log_format (c ∷ f ∷ fmt) args s = elim (c == 37) [
  | true ↦ elim (log_arg f args s) [ some r ↦ log_format fmt r.0 r.1 | none ↦ s ]
  | false ↦ log_format (f ∷ fmt) args (log_putc c s)
]

-- `level_names`.
unfoldable pub level_name : ℕ → List ℕ
level_name zero = 68 ∷ 69 ∷ 66 ∷ 85 ∷ 71 ∷ []
level_name (suc zero) = 73 ∷ 78 ∷ 70 ∷ 79 ∷ 32 ∷ []
level_name (suc (suc zero)) = 87 ∷ 65 ∷ 82 ∷ 78 ∷ 32 ∷ []
level_name (suc (suc (suc n))) = 69 ∷ 82 ∷ 82 ∷ 79 ∷ 82 ∷ []

-- `klog` at one of the four levels, none of which is below `LOG_LEVEL`.
unfoldable pub klog : ℕ → ℕ → List ℕ → List Arg → LogState → LogState
unfolding log_print_num log_puts level_name log_format
klog level ts fmt args s =
    if not s.enabled
    then s
    else (let s₁ = record s { total_logs = inc32 s.total_logs } in
        let s₂ = log_puts (93 ∷ 32 ∷ 91 ∷ []) (log_print_num ts (log_putc 91 s₁)) in
        let s₃ = log_format fmt args (log_puts (93 ∷ 32 ∷ []) (log_puts (level_name level) s₂)) in
        record s₃ { count = inc32 s₃.count })

-- `log_init` up to its own message, which `start_log` adds.
unfoldable pub log_init : LogState → LogState
log_init s = record s {
  head = 0;
  tail = 0;
  count = 0;
  total_logs = 0;
  dropped = 0;
  enabled = true;
  use_color = true;
}

-- `get_timestamp`, from the clock of `get_time`.
abbrev pub get_timestamp : ℕ → ℕ
get_timestamp t = t / 10000

unfoldable pub log_clear : ℕ → LogState → LogState
log_clear ts s =
    klog 1 ts (codes "Log buffer cleared\n") [] (record s { head = 0; tail = 0; count = 0 })

-- The loop of `log_dump` from position `pos`, which goes round at most once.
unfoldable pub dump_from : (ℕ → ℕ) → ℕ → ℕ → ℕ → List ℕ
dump_from b head zero pos = []
dump_from b head (suc k) pos =
    let rest = dump_from b head k ((pos + 1) % log_bufsize) in
    if pos == head then [] else b pos ∷ rest

unfoldable pub log_dump : LogState → List ℕ
unfolding dump_from
log_dump s = dump_from s.buffer s.head log_bufsize s.tail

-- The usage that `log_stats` prints.
abbrev pub used : LogState → ℕ
used s = (s.head + log_bufsize - s.tail) % log_bufsize

unfoldable pub log_stats : LogState → List ℕ
log_stats s =
    printf (codes "\n=== Log Statistics ===\n") []
    ++ (printf (codes "Total logs:   %d\n") (number s.total_logs ∷ [])
        ++ (printf (codes "Buffer count: %d\n") (number s.count ∷ [])
            ++ (printf (codes "Dropped:      %d\n") (number s.dropped ∷ [])
                ++ (printf (codes "Buffer usage: %d / %d bytes\n")
                      (number (used s) ∷ number log_bufsize ∷ [])
                    ++ printf (codes "======================\n") []))))
