-- ===== src/Console/Klog/Shown.antt =====
-- kernel/klog.c: what `klog` shows on the console while it writes to the ring buffer.
use riscvos.Common.{
  ℕ, zero, suc, ◌%◌, ◌^◌, true, false, not, Option, none, some, List, [], ◌∷◌, ◌++◌, ◌||◌, ◌==◌,
  if◌then◌else◌,
}
use riscvos.Console.Klog.{LogState, level_name}
use riscvos.Console.Printf.{Arg, number, text, codes, prints, printd, printu, printf}

-- `level_colors` and `color_reset`.
unfoldable pub level_color : ℕ → List ℕ
level_color zero = 27 ∷ codes "[36m"
level_color (suc zero) = 27 ∷ codes "[32m"
level_color (suc (suc zero)) = 27 ∷ codes "[33m"
level_color (suc (suc (suc n))) = 27 ∷ codes "[31m"

abbrev color_reset : List ℕ
color_reset = 27 ∷ codes "[0m"

-- The cases of the switch that take no argument.
abbrev pub kept : ℕ → List ℕ
kept f = if f == 37 then 37 ∷ [] else 37 ∷ f ∷ []

-- The calls of `printf` in the switch: their output and the arguments that are left. A missing or ill-typed
-- argument is undefined in C; the model ends the message there.
unfoldable pub shown_arg : ℕ → List Arg → Option (List ℕ × List Arg)
unfolding printd printu prints
shown_arg f (number v ∷ rest) =
    if f == 100
    then some (printd (v % 2 ^ 32), rest)
    else (if f == 120
        then some (printu (v % 2 ^ 32) 16, rest)
        else (if f == 115
            then none
            else (if f == 99 then some ((v % 256) ∷ [], rest) else some (kept f, number v ∷ rest))))
shown_arg f (text s ∷ rest) =
    if f == 100 || f == 120 || f == 99
    then none
    else (if f == 115 then some (prints s, rest) else some (kept f, text s ∷ rest))
shown_arg f [] = if f == 100 || f == 120 || f == 115 || f == 99 then none else some (kept f, [])

-- The loop over the format.
unfoldable pub shown : List ℕ → List Arg → List ℕ
unfolding shown_arg
shown [] args = []
shown (c ∷ []) args = if c == 37 then [] else c ∷ []
shown (c ∷ f ∷ fmt) args = elim (c == 37) [
  | true ↦ elim (shown_arg f args) [ none ↦ [] | some r ↦ r.0 ++ shown fmt r.1 ]
  | false ↦ c ∷ shown (f ∷ fmt) args
]

-- All that `klog` shows; the timestamp is cast to an `int`.
unfoldable pub klog_shown : ℕ → ℕ → List ℕ → List Arg → LogState → List ℕ
unfolding level_color shown printf level_name
klog_shown level ts fmt args s =
    if not s.enabled
    then []
    else (if s.use_color then level_color level else [])
      ++ (printf (codes "[%d] [%s] ") (number ts ∷ text (some (level_name level)) ∷ [])
          ++ ((if s.use_color then color_reset else []) ++ shown fmt args))
