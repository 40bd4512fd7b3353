-- ===== src/Storage/Log/Phase.antt =====
-- kernel/log.c: the log between transactions, and in one.
use riscvos.Common.{
  ℕ, zero, suc, ◌+◌, ◌<◌, ◌≤◌, ◌^◌, ◌≡◌, refl, sym, subst, ◌∙◌, ap, Bool, true, false, arith,
  if◌then◌else◌, ◌==◌, update,
}
use riscvos.Common.Outcome.{
  done, Ensures, Settles, returns, panics, Ensures-imp, Ensures->>=, Ensures-if, Ensures-option,
}
use riscvos.Common.Word.{rounds, slt, sub32, dec32, inc32}
use riscvos.Storage.Bio.{Bcache, bread, bget, hit, victim}
use riscvos.Storage.Log.{
  Log, Store, entered, slot, acquire_log, release_log, install_entry, install_from, install_trans,
  write_head, log_entry, write_log_from, write_log, commit_entries, commit, end_commit, end_op,
  begin_op, begin_try, log_full, log_block, find_entry,
}
use riscvos.Storage.Log.Ops.{IsDistinct, log_block-Enters}

-- No transaction is open, nothing is left to commit, and there is room for one.
pub record IsIdle (l : Log) : Type 0 where
  pub outstanding : l.outstanding ≡ 0
  pub committing : l.committing ≡ false
  pub lock : l.lock ≡ false
  pub n : l.n ≡ 0
  pub room : (10 ≤ l.size) × (l.size < 2 ^ 31)

-- One transaction is open.
pub record IsOpen (l : Log) : Type 0 where
  pub outstanding : l.outstanding ≡ 1
  pub committing : l.committing ≡ false
  pub lock : l.lock ≡ false
  pub n : l.n < l.size
  pub room : (10 ≤ l.size) × (l.size < 2 ^ 31)
  pub distinct : IsDistinct l

bget-Settles : (dev n : ℕ) (c : Bcache) → Settles (bget dev n c)
unfolding bget
bget-Settles dev n c =
    Ensures-option (hit dev n c.buf c.lru)
      (λ _. Ensures-option (victim c.buf c.lru) (λ _. panics) (λ p _. returns tt))
      (λ p _. returns tt)

pub bread-Settles : (dev n : ℕ) (c : Bcache) → Settles (bread dev n c)
unfolding bread
bread-Settles dev n c = Ensures->>= (bget-Settles dev n c) (λ r _. returns tt)

pub acquire_log-locked :
    (l : Log) → l.lock ≡ false → Ensures (λ l'. l' ≡ record l { lock = true }) (acquire_log l)
unfolding acquire_log
acquire_log-locked l free = Ensures-if l.lock (λ held. cc) (λ _. returns refl)

install_from-Settles :
    (k : ℕ) (r : Bool) (l : Log) (tail : ℕ) (c : Bcache) → Settles (install_from r l tail k c)
unfolding install_from install_entry
install_from-Settles zero r l tail c = returns tt
install_from-Settles (suc k) r l tail c =
    Ensures->>= (entry_settles) (λ c' _. install_from-Settles k r l (tail + 1) c')
  where
    entry_settles : Settles (install_entry r l tail c)
    entry_settles =
        Ensures->>= (bread-Settles l.dev (slot l tail) c)
          (λ lbuf _. Ensures->>= (bread-Settles l.dev (l.block tail) lbuf.1) (λ dbuf _. returns tt))

write_head-Settles : (l : Log) (c : Bcache) → Settles (write_head l c)
unfolding write_head
write_head-Settles l c = Ensures->>= (bread-Settles l.dev l.start c) (λ b _. returns tt)

write_log_from-Settles :
    (k : ℕ) (l : Log) (tail : ℕ) (c : Bcache) → Settles (write_log_from l tail k c)
unfolding write_log_from log_entry
write_log_from-Settles zero l tail c = returns tt
write_log_from-Settles (suc k) l tail c =
    Ensures->>= entry_settles (λ c' _. write_log_from-Settles k l (tail + 1) c')
  where
    entry_settles : Settles (log_entry l tail c)
    entry_settles =
        Ensures->>= (bread-Settles l.dev (slot l tail) c)
          (λ to _. Ensures->>= (bread-Settles l.dev (l.block tail) to.1) (λ from _. returns tt))

commit_entries-log : (s : Store) → Ensures (λ t. t.log ≡ record s.log { n = 0 }) (commit_entries s)
unfolding commit_entries write_log install_trans
commit_entries-log s =
    Ensures->>= (write_log_from-Settles (rounds s.log.n) s.log 0 s.cache) (λ c₁ _.
      Ensures->>= (write_head-Settles s.log c₁) (λ c₂ _.
        Ensures->>= (install_from-Settles (rounds s.log.n) false s.log 0 c₂) (λ c₃ _.
          Ensures->>= (write_head-Settles (record s.log { n = 0 }) c₃) (λ c₄ _. returns refl))))

-- `commit` empties the log.
commit-log :
    (s : Store) → s.log.n < 2 ^ 31 → Ensures (λ t. t.log ≡ record s.log { n = 0 }) (commit s)
unfolding commit
commit-log s h =
    Ensures-if (slt 0 s.log.n) (λ _. commit_entries-log s)
      (λ e. returns (empty s.log.n (ground arith)))
  where
    empty : (n : ℕ) → n ≡ 0 → record s.log { n = n } ≡ record s.log { n = 0 }
    empty n z = ap (λ k. record s.log { n = k }) z

end_commit-log :
    (s : Store)
    → s.log.lock ≡ false
    → Ensures (λ t. t.log ≡ record s.log { committing = false; lock = false }) (end_commit s)
unfolding end_commit release_log
end_commit-log s free =
    Ensures->>= (acquire_log-locked s.log free)
      (λ l e. returns (ap {A = Log} (λ m. record m { committing = false; lock = false }) e))

-- The end of the only transaction leaves the log idle.
pub end_op-IsIdle : (s : Store) → IsOpen s.log → Ensures (λ t. IsIdle t.log) (end_op s)
unfolding end_op release_log
end_op-IsIdle s o = Ensures->>= (acquire_log-locked s.log o.lock) (λ l e.
    let quiet : l.committing ≡ false = ap {A = Log} (λ m. m.committing) e ∙ o.committing in
    let out : dec32 l.outstanding ≡ 0 =
      ap {A = Log} (λ m. dec32 m.outstanding) e ∙ ap dec32 o.outstanding in
    let size : l.size ≡ s.log.size = ap {A = Log} (λ m. m.size) e in
    let n : l.n ≡ s.log.n = ap {A = Log} (λ m. m.n) e in
    Ensures-if l.committing (λ c. cc)
      (λ _.
        Ensures-if (dec32 l.outstanding == 0)
          (λ _.
            Ensures->>= (commit-log (record s { log = closing l }) (omega (arith, n, o.n, o.room)))
              (λ t e'.
                Ensures-imp
                  (λ u e''. subst IsIdle (sym e'') (record {
                    outstanding = ap {A = Log} (λ m. m.outstanding) e' ∙ out;
                    committing = refl;
                    lock = refl;
                    n = ap {A = Log} (λ m. m.n) e';
                    room =
                        subst (λ k. (10 ≤ k) × (k < 2 ^ 31))
                          (sym (ap {A = Log} (λ m. m.size) e' ∙ size)) o.room;
                  }))
                  (end_commit-log t (ap {A = Log} (λ m. m.lock) e'))))
          (λ ne. absurd (ground (arith, out)))))
  where
    closing : Log → Log
    closing l = record l { outstanding = dec32 l.outstanding; committing = true; lock = false }

pub begin_op-IsOpen :
    (l : Log) → IsIdle l → (l' : Log) × (begin_op l ≡ done (entered l')) × IsOpen l'
unfolding begin_op begin_try acquire_log release_log
begin_op-IsOpen l i =
    let room : log_full (record l { lock = true }) ≡ false =
      ground (arith, i.outstanding, i.n, i.room) in
    (
      record l { outstanding = inc32 l.outstanding; lock = false },
      rw (i.lock, i.committing, room) refl,
      record {
        outstanding = ap inc32 i.outstanding;
        committing = i.committing;
        lock = refl;
        n = omega (arith, i.n, i.room);
        room = i.room;
        distinct = λ a b ha hb e. absurd (omega (arith, i.n, ha));
      },
    )

log_block-fields :
    (l : Log) (b : ℕ)
    → ((log_block l b).outstanding ≡ l.outstanding)
      × ((log_block l b).committing ≡ l.committing)
      × ((log_block l b).size ≡ l.size)
unfolding log_block
log_block-fields l b = by_test (find_entry l.block b 0 (rounds l.n) == l.n)
  where
    grown : Log
    grown = record l {
      block = update l.block (find_entry l.block b 0 (rounds l.n)) b;
      n = inc32 l.n;
    }

    by_test :
        (t : Bool)
        → ((if t then grown else l).outstanding ≡ l.outstanding)
          × ((if t then grown else l).committing ≡ l.committing)
          × ((if t then grown else l).size ≡ l.size)
    by_test true = (refl, refl, refl)
    by_test false = (refl, refl, refl)

pub log_block-IsOpen :
    (l : Log) (b : ℕ)
    → slt l.n (sub32 l.size 1) ≡ true
    → IsOpen l
    → IsOpen (release_log (log_block (record l { lock = true }) b))
unfolding release_log
log_block-IsOpen l b room o =
    let small : l.n < 2 ^ 31 = omega (arith, o.n, o.room) in
    let more : l.n + 1 < l.size = ground (arith, o.n, o.room, room) in
    let en = log_block-Enters (record l { lock = true }) b small in
    let same = log_block-fields (record l { lock = true }) b in
    record {
      outstanding = same.0 ∙ o.outstanding;
      committing = same.1 ∙ o.committing;
      lock = refl;
      n = omega (arith, en.grows, more, same.2);
      room = subst (λ k. (10 ≤ k) × (k < 2 ^ 31)) (sym same.2) o.room;
      distinct = en.distinct o.distinct;
    }
