-- ===== src/Storage/Log/Ops.antt =====
-- kernel/log.c: `begin_op`, `end_op` and `log_write`.
use native.Mathlib.Decide.{ℕ_discrete}
use riscvos.Common.{
  ℕ, zero, suc, ◌+◌, ◌*◌, ◌<◌, ◌≤◌, ◌^◌, ◌≡◌, refl, ◌≢◌, ◌∙◌, ◌⊎◌, inl, inr, true, false, arith,
  sym, subst, update, ◌==◌, Bool-cases, ==_refl,
}
use riscvos.Common.Outcome.{Outcome, done, panic, hang}
use riscvos.Common.Word.{inc32, rounds, slt, sub32}
use riscvos.Storage.Bio.{Bcache}
use riscvos.Storage.Log.{
  Log, Store, Begin, entered, sleeping, begin_op, log_full, end_op, release_log, find_entry,
  log_block, log_write,
}

-- A process that goes to sleep in `begin_op` takes `log.lock` with it: from then on every call of
-- `begin_op`, `end_op` and `log_write` spins for ever.
pub begin_op_deadlock :
    (l l' : Log)
    → begin_op l ≡ done (sleeping l')
    → (begin_op l' ≡ hang "acquire_log")
      × ((c : Bcache) → end_op (record { log = l'; cache = c }) ≡ hang "acquire_log")
      × ((p : ℕ) (c : Bcache) → log_write p (record { log = l'; cache = c }) ≡ hang "acquire_log")
unfolding begin_op end_op log_write
begin_op_deadlock l l' e =
    let held : l'.lock ≡ true = ground arith in (rw held, λ c. rw held, λ p c. rw held)

-- What `begin_op` does.
pub data Begun (l : Log) : Outcome Begin → Type 0 where
  locked : l.lock ≡ true → Begun l (hang "acquire_log")
  waits :
      l.lock ≡ false
      → (l.committing ≡ true) ⊎ (l.size < l.n + (l.outstanding + 1) * 5 + 5)
      → Begun l (done (sleeping (record l { lock = true })))
  enters :
      {l' : Log}
      → l.lock ≡ false
      → l.committing ≡ false
      → l'.n + l'.outstanding * 5 + 5 ≤ l'.size
      → l' ≡ record l { outstanding = l.outstanding + 1 }
      → Begun l (done (entered l'))

-- In a log whose counts are small, `begin_op` never returns while another process holds `log.lock`. Otherwise the process
-- goes to sleep during a commit, or where five blocks for each open transaction and for its own, and five more, do not fit behind the blocks already in the
-- log; else it enters, with room for them, and the log is as it was but for one more open transaction, its lock free.
pub begin_op-Begun :
    (l : Log) → l.size < 2 ^ 24 → l.n < 2 ^ 24 → l.outstanding < 2 ^ 24 → Begun l (begin_op l)
unfolding begin_op
begin_op-Begun l hs hn ho = elim (Bool-cases l.lock) [
  | inl h ↦
      let e : begin_op l ≡ hang "acquire_log" = rw h refl in subst (Begun l) (sym e) (locked h)
  | inr free ↦ elim (Bool-cases l.committing) [
    | inl c ↦
        let e : begin_op l ≡ done (sleeping (record l { lock = true })) = ground arith in
        subst (Begun l) (sym e) (waits free (inl c))
    | inr c ↦ elim (Bool-cases (log_full l)) [
      | inl f ↦
          let e : begin_op l ≡ done (sleeping (record l { lock = true })) = ground arith in
          subst (Begun l) (sym e) (waits free (inr (ground arith)))
      | inr f ↦
          let e : begin_op l ≡ done (entered (record l { outstanding = l.outstanding + 1 })) =
            ground arith in
          subst (Begun l) (sym e) (enters free c (ground arith) refl)
    ]
  ]
]

-- What the search of `log_write` finds.
find_entry-found :
    (f : ℕ → ℕ) (b k i : ℕ)
    → ((find_entry f b i k ≡ i + k) × ((j : ℕ) → i ≤ j → j < i + k → f j ≢ b))
      ⊎ ((find_entry f b i k < i + k) × (f (find_entry f b i k) ≡ b))
unfolding find_entry
find_entry-found f b zero i = inl (omega arith, λ j lo hi. absurd (omega arith))
find_entry-found f b (suc k) i = elim (Bool-cases (f i == b)) [
  | inl e ↦ rw e (inr (omega arith, ground arith))
  | inr ne ↦ rw ne (elim (find_entry-found f b k (i + 1)) [
    | inl (e, none') ↦ inl (
      omega arith,
      λ j lo hi. elim (ℕ_discrete i j) [
        | yes q ↦ ground arith
        | no q ↦ none' j (omega arith) (omega arith)
      ],
    )
    | inr (lt, e) ↦ inr (omega arith, e)
  ])
]

-- No block stands in the log twice.
abbrev pub IsDistinct : Log → Type 0
IsDistinct l = (i j : ℕ) → i < l.n → j < l.n → l.block i ≡ l.block j → i ≡ j

-- Block `b` has its entry, the other entries are as they were, and there is at most one more.
pub record Enters (b : ℕ) (l l' : Log) : Type 0 where
  pub entry : (i : ℕ) × (i < l'.n) × (l'.block i ≡ b)
  pub old : (i : ℕ) → i < l.n → l'.block i ≡ l.block i
  pub new : (i : ℕ) → i < l'.n → (i < l.n) ⊎ (l'.block i ≡ b)
  pub grows : (l.n ≤ l'.n) × (l'.n ≤ l.n + 1)
  pub distinct : IsDistinct l → IsDistinct l'

appended-IsDistinct :
    (l : Log) (b : ℕ)
    → ((j : ℕ) → 0 ≤ j → j < 0 + l.n → l.block j ≢ b)
    → l.n < 2 ^ 31
    → IsDistinct l
    → IsDistinct (record l { block = update l.block l.n b; n = inc32 l.n })
appended-IsDistinct l b absent h d i j hi hj e = elim (ℕ_discrete i l.n) [
  | yes p ↦ elim (ℕ_discrete j l.n) [
    | yes q ↦ p ∙ sym q
    | no q ↦ absurd (absent j (omega arith) (ground arith) (ground arith))
  ]
  | no p ↦ elim (ℕ_discrete j l.n) [
    | yes q ↦ absurd (absent i (omega arith) (ground arith) (ground arith))
    | no q ↦ d i j (ground arith) (ground arith) (ground arith)
  ]
]

pub log_block-Enters : (l : Log) (b : ℕ) → l.n < 2 ^ 31 → Enters b l (log_block l b)
unfolding log_block
log_block-Enters l b h =
    let rn : rounds l.n ≡ l.n = ground arith in
    elim (find_entry-found l.block b l.n 0) [
      | inl (e, absent) ↦
          let at_end : find_entry l.block b 0 l.n ≡ l.n = e ∙ omega arith in
          rw (rn, at_end, ==_refl l.n)
            (record {
              entry = (l.n, ground arith, ground arith);
              old = λ i hi. ground arith;
              new = λ i hi. ground arith;
              grows = (ground arith, ground arith);
              distinct = λ d i j hi hj e. appended-IsDistinct l b absent h d i j hi hj e;
            })
      | inr (lt, e) ↦
          let ne : (find_entry l.block b 0 l.n == l.n) ≡ false = ground arith in
          rw (rn, ne)
            (record {
              entry = (find_entry l.block b 0 l.n, omega arith, e);
              old = λ i hi. refl;
              new = λ i hi. inl hi;
              grows = (omega arith, omega arith);
              distinct = λ d. d;
            })
    ]

-- The outcome of `log_write` on buffer `p`.
pub data Logged (p : ℕ) (s : Store) : Outcome Store → Type 0 where
  spins : s.log.lock ≡ true → Logged p s (hang "acquire_log")
  full : s.log.lock ≡ false → s.log.size ≤ s.log.n + 1 → Logged p s (panic "log: too big")
  outside :
      s.log.lock ≡ false
      → s.log.n + 1 < s.log.size
      → s.log.outstanding ≡ 0
      → Logged p s (panic "log: outside of trans")
  logged :
      {s' : Store}
      → s.log.lock ≡ false
      → s.log.n + 1 < s.log.size
      → 1 ≤ s.log.outstanding
      → Enters (s.cache.buf p).blockno s.log s'.log
      → s'.log.n ≤ 30
      → s'.log.lock ≡ false
      → s'.cache.buf p ≡ record (s.cache.buf p) { disk = true }
      → Logged p s (done s')

abbrev logged_store : ℕ → Store → Store
logged_store p s = record {
  log = release_log (log_block (record s.log { lock = true }) (s.cache.buf p).blockno);
  cache = record s.cache { buf = update s.cache.buf p (record (s.cache.buf p) { disk = true }) };
}

-- With a log area of at most 31 blocks, `log_write` never returns while another process holds `log.lock`; otherwise it refuses a block when
-- the log has no room and when no transaction is open, and else enters the block once, among the 30 entries
-- that the header has, marks the buffer so that it is not recycled, and gives the lock back.
pub log_write-Logged :
    (p : ℕ) (s : Store)
    → s.log.n < 2 ^ 31
    → 1 ≤ s.log.size
    → s.log.size ≤ 31
    → s.log.outstanding < 2 ^ 31
    → Logged p s (log_write p s)
unfolding log_write release_log
log_write-Logged p s hn h1 hs ho = elim (Bool-cases s.log.lock) [
  | inl held ↦
      let e : log_write p s ≡ hang "acquire_log" = rw held refl in
      subst (Logged p s) (sym e) (spins held)
  | inr free ↦ elim (Bool-cases (slt s.log.n (sub32 s.log.size 1))) [
    | inr big ↦
        let e : log_write p s ≡ panic "log: too big" = rw (free, big) refl in
        subst (Logged p s) (sym e) (full free (ground arith))
    | inl room ↦ elim (Bool-cases (slt s.log.outstanding 1)) [
      | inl out ↦
          let e : log_write p s ≡ panic "log: outside of trans" = rw (free, room, out) refl in
          subst (Logged p s) (sym e) (outside free (ground arith) (ground arith))
      | inr in_op ↦
          let e : log_write p s ≡ done (logged_store p s) = rw (free, room, in_op) refl in
          let room' : s.log.n + 1 < s.log.size = ground arith in
          let small : (log_block (record s.log { lock = true }) (s.cache.buf p).blockno).n ≤ 30 =
            omega (
              arith,
              (log_block-Enters (record s.log { lock = true }) (s.cache.buf p).blockno hn).grows,
              room',
              hs,
            ) in
          let en = log_block-Enters (record s.log { lock = true }) (s.cache.buf p).blockno hn in
          subst (Logged p s) (sym e) (
            logged free (ground arith) (ground arith)
              (record {
                entry = en.entry;
                old = en.old;
                new = en.new;
                grows = en.grows;
                distinct = en.distinct;
              })
              small refl (ground arith))
    ]
  ]
]
