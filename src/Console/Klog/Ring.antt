-- ===== src/Console/Klog/Ring.antt =====
-- kernel/klog.c: the ring buffer keeps the last 4095 characters.
use riscvos.Common.{
  ℕ, zero, suc, ◌+◌, ◌-◌, ◌%◌, ◌<◌, ◌≤◌, ◌≡◌, refl, sym, ap, ◌∙◌, inl, inr, List, [], ◌∷◌, ◌++◌,
  arith, length, length-append, drop, false, ◌==◌, update, append_assoc, append-nil, Bool-cases,
}
use riscvos.Common.Word.{inc32}
use riscvos.Console.Klog.{LogState, log_bufsize, log_putc, log_puts, log_dump, dump_from, used}

-- Both positions lie in the buffer.
pub record IsRing (s : LogState) : Type 0 where
  pub head_in : s.head < log_bufsize
  pub tail_in : s.tail < log_bufsize

-- The characters at `k` positions from `pos` on.
abbrev read : (ℕ → ℕ) → ℕ → ℕ → List ℕ
read b pos zero = []
read b pos (suc k) = b pos ∷ read b ((pos + 1) % log_bufsize) k

length-read : (b : ℕ → ℕ) (pos k : ℕ) → length (read b pos k) ≡ k
length-read b pos zero = refl
length-read b pos (suc k) = ap suc (length-read b ((pos + 1) % log_bufsize) k)

dump_from-read :
    (b : ℕ → ℕ) (head k j pos : ℕ)
    → k < log_bufsize
    → k < j
    → pos < log_bufsize
    → (pos + k) % log_bufsize ≡ head
    → dump_from b head j pos ≡ read b pos k
unfolding dump_from
dump_from-read b head k zero pos hk hj hp e = absurd (omega arith)
dump_from-read b head zero (suc j) pos hk hj hp e = ground arith
dump_from-read b head (suc k) (suc j) pos hk hj hp e =
    let ih =
      dump_from-read b head k j ((pos + 1) % log_bufsize) (omega arith) (omega arith) (omega arith)
        (omega arith) in
    let ne : (pos == head) ≡ false = ground arith in rw ne (ap (λ r. b pos ∷ r) ih)

read-snoc :
    (b : ℕ → ℕ) (c head k pos : ℕ)
    → k < log_bufsize
    → pos < log_bufsize
    → (pos + k) % log_bufsize ≡ head
    → read (update b head c) pos (suc k) ≡ read b pos k ++ (c ∷ [])
read-snoc b c head zero pos hk hp e = ground arith
read-snoc b c head (suc k) pos hk hp e =
    let ih =
      read-snoc b c head k ((pos + 1) % log_bufsize) (omega arith) (omega arith) (omega arith) in
    let ne : (head == pos) ≡ false = ground arith in rw ne (ap (λ r. b pos ∷ r) ih)

log_dump-read :
    (s : LogState) (k : ℕ)
    → IsRing s
    → k < log_bufsize
    → (s.tail + k) % log_bufsize ≡ s.head
    → log_dump s ≡ read s.buffer s.tail k
unfolding log_dump
log_dump-read s k w h e = dump_from-read s.buffer s.head k log_bufsize s.tail h h w.tail_in e

-- The last 4095 characters of a text.
abbrev pub keep : List ℕ → List ℕ
keep xs = drop (length xs - 4095) xs

abbrev advanced : ℕ → LogState → LogState
advanced c s = record s { buffer = update s.buffer s.head c; head = (s.head + 1) % log_bufsize }

abbrev overwritten : ℕ → LogState → LogState
overwritten c s = record s {
  buffer = update s.buffer s.head c;
  head = (s.head + 1) % log_bufsize;
  tail = (s.tail + 1) % log_bufsize;
  dropped = inc32 s.dropped;
}

-- The text of a ring has the length that `log_stats` prints, at most 4095.
pub length-log_dump : (s : LogState) → IsRing s → length (log_dump s) ≡ used s
length-log_dump s w =
    ap length (log_dump-read s (used s) w (omega arith) (omega (arith, w.head_in, w.tail_in)))
    ∙ length-read s.buffer s.tail (used s)

-- On a ring, `log_putc` appends its character to what `log_dump` shows, and drops the oldest one when there would
-- be 4096; the positions stay in the buffer.
log_dump-log_putc :
    (c : ℕ) (s : LogState)
    → IsRing s
    → (log_dump (log_putc c s) ≡ keep (log_dump s ++ (c ∷ []))) × IsRing (log_putc c s)
unfolding log_putc
log_dump-log_putc c s w =
    let old = log_dump-read s (used s) w (omega arith) (omega (arith, w.head_in, w.tail_in)) in
    let snoc =
      read-snoc s.buffer c s.head (used s) s.tail (omega arith) w.tail_in
        (omega (arith, w.head_in, w.tail_in))
      ∙ ap (λ r. r ++ (c ∷ [])) (sym old) in
    let size : length (log_dump s ++ (c ∷ [])) ≡ used s + 1 =
      length-append (log_dump s) (c ∷ []) ∙ ap (λ n. n + 1) (length-log_dump s w) in
    elim (Bool-cases ((s.head + 1) % log_bufsize == s.tail)) [
      | inr room ↦
          let w' : IsRing (advanced c s) = record { head_in = omega arith; tail_in = w.tail_in } in
          let none_over : length (log_dump s ++ (c ∷ [])) - 4095 ≡ 0 =
            ground (arith, size, w.head_in, w.tail_in) in
          rw (room, none_over)
            (
              log_dump-read (advanced c s) (suc (used s)) w' (ground (arith, w.head_in, w.tail_in))
                    (omega (arith, w.head_in, w.tail_in))
                  ∙ snoc,
              w',
            )
      | inl full ↦
          let w' : IsRing (overwritten c s) = record {
            head_in = omega arith;
            tail_in = omega arith;
          } in
          let one_over : length (log_dump s ++ (c ∷ [])) - 4095 ≡ 1 =
            ground (arith, size, w.head_in, w.tail_in) in
          rw (full, one_over)
            (
              log_dump-read (overwritten c s) (used s) w' (omega arith)
                    (omega (arith, w.head_in, w.tail_in))
                  ∙ ap (drop 1) snoc,
              w',
            )
    ]

drop-append : (n : ℕ) (xs ys : List ℕ) → n ≤ length xs → drop n (xs ++ ys) ≡ drop n xs ++ ys
drop-append zero xs ys h = refl
drop-append (suc n) [] ys h = absurd (omega arith)
drop-append (suc n) (x ∷ xs) ys h = drop-append n xs ys (omega arith)

drop-nil : (k : ℕ) → drop {A = ℕ} k [] ≡ []
drop-nil zero = refl
drop-nil (suc k) = refl

drop-drop : (m n : ℕ) (xs : List ℕ) → drop m (drop n xs) ≡ drop (n + m) xs
drop-drop m zero xs = let e : m ≡ 0 + m = omega arith in ap (λ k. drop k xs) e
drop-drop m (suc n) [] = drop-nil m ∙ sym (drop-nil (suc n + m))
drop-drop m (suc n) (x ∷ xs) =
    let e : suc (n + m) ≡ suc n + m = omega arith in drop-drop m n xs ∙ ap (λ k. drop k (x ∷ xs)) e

length-drop : (n : ℕ) (xs : List ℕ) → length (drop n xs) ≡ length xs - n
length-drop zero xs = omega arith
length-drop (suc n) [] = omega arith
length-drop (suc n) (x ∷ xs) = length-drop n xs ∙ omega arith

keep-keep : (xs ys : List ℕ) → keep (keep xs ++ ys) ≡ keep (xs ++ ys)
keep-keep xs ys =
    let n = length xs - 4095 in
    let e : keep xs ++ ys ≡ drop n (xs ++ ys) = sym (drop-append n xs ys (omega arith)) in
    rw e (
      drop-drop (length (drop n (xs ++ ys)) - 4095) n (xs ++ ys)
      ∙ ap (λ k. drop k (xs ++ ys)) (omega (arith, length-drop n (xs ++ ys), length-append xs ys)))

keep-nothing : (xs : List ℕ) → length xs < log_bufsize → keep xs ≡ xs
keep-nothing xs h = let e : length xs - 4095 ≡ 0 = omega arith in ap (λ k. drop k xs) e

-- On a ring, after `log_puts` `log_dump` shows the last 4095 characters of what it showed before with the
-- string behind it, and the positions stay in the buffer.
pub log_dump-log_puts :
    (cs : List ℕ) (s : LogState)
    → IsRing s
    → (log_dump (log_puts cs s) ≡ keep (log_dump s ++ cs)) × IsRing (log_puts cs s)
unfolding log_puts
log_dump-log_puts [] s w = (
  sym (
      keep-nothing (log_dump s ++ []) (ground (arith, append-nil (log_dump s), length-log_dump s w))
      ∙ append-nil (log_dump s)),
  w,
)
log_dump-log_puts (c ∷ cs) s w =
    let first = log_dump-log_putc c s w in
    let rest = log_dump-log_puts cs (log_putc c s) first.1 in
    (
      rest.0
          ∙ ap (λ r. keep (r ++ cs)) first.0
          ∙ keep-keep (log_dump s ++ (c ∷ [])) cs
          ∙ ap keep (append_assoc (log_dump s) (c ∷ []) cs),
      rest.1,
    )
