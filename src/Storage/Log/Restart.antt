-- ===== src/Storage/Log/Restart.antt =====
-- kernel/log.c: a commit cut short by a power failure, and a boot whose recovery runs to its end.
use riscvos.Common.{
  ℕ, ◌+◌, ◌*◌, ◌<◌, ◌^◌, ◌≡◌, refl, ◌≢◌, ◌∙◌, ◌⊎◌, inl, inr, true, List, arith, sym, ap, ap₂, subst,
  if◌then◌else◌,
}
use riscvos.Common.Outcome.{done, >>=-done}
use riscvos.Common.Word.{rounds, slt}
use riscvos.Storage.Bio.{Block, Bcache, read_block, boot}
use riscvos.Storage.Bio.Invariant.{IsValid, view}
use riscvos.Storage.Bio.Ops.{Below}
use riscvos.Storage.Bio.Boot.{boot-IsValid, view-boot, boot-Below, image-boot, written-boot}
use riscvos.Storage.Bio.Write.{read_block-cons_self}
use riscvos.Storage.Bio.Progress.{Spare, boot-Spare}
use riscvos.Storage.Bytes.{get_word}
use riscvos.Storage.Log.{
  Log, Store, header, read_head, write_head, install_trans, install_from, recover_entries,
  recover_from_log, commit_entries, commit,
}
use riscvos.Storage.Log.Trace.{IsPlaced, install_from-Installed}
use riscvos.Storage.Log.Commit.{cleared, new_contents, commit_entries-Committed}
use riscvos.Storage.Log.Header.{header-count}
use riscvos.Storage.Log.Recover.{loaded, log_contents, HeadRead, read_head-HeadRead}
use riscvos.Storage.Log.Cut.{Cut, During, preparing, installing, finished, Cut-During}
use riscvos.Storage.Log.Points.{before, old_header, disk_at, prepared-start, sealed-header}
use riscvos.Storage.Log.Crash.{SameArea, AllOrNothing, crash_atomic, reloaded-n, reloaded-IsPlaced}
use riscvos.Storage.Log.Progress.{
  Returns, >>=-Returns, read_head-Returns, HeadRead-Spare, write_head-Returns, install_from-Runs,
}

-- A header block from which recovery can start: empty, or with entries outside the log area.
abbrev CanRecover : Log → Block → Type 0
CanRecover l b =
    (get_word b 0 ≡ 0)
    ⊎ (IsPlaced (loaded l b) × (0 < get_word b 0) × (2 * (loaded l b).n + 16 < 2 ^ 31))

module _ (l : Log) (c : Bcache) {a b : ℕ} (v : IsValid l.dev c) (start₀ : l.start ≢ 0)
    (u : Below 0 c) (spare : Spare c a b) where
  entries-Returns :
      (k : Log) (d : Bcache)
      → IsPlaced k
      → IsValid k.dev d
      → Below 1 d
      → Spare d a b
      → 2 * k.n + 16 < 2 ^ 31
      → Returns (recover_entries k d)
  unfolding recover_entries install_trans
  entries-Returns k d pl vd ud sp small =
      let n = rounds k.n in
      let rn : n ≡ k.n = ground (arith, pl.fits, pl.few) in
      let (c₁, e₁, s₁) = install_from-Runs k pl true n 0 1 d (omega arith) vd ud (omega arith) sp in
      let w₁ =
        install_from-Installed k (log_contents k d) pl true n 0 1 d c₁ (omega arith) vd
          (λ i hi. refl) ud (omega arith) e₁ in
      let (c₂, e₂) = write_head-Returns (cleared k) c₁ w₁.valid s₁ (omega (arith, pl.after_boot)) in
      (
        record { log = cleared k; cache = c₂ },
        >>=-done (install_from true k 0 n d) _ e₁ (>>=-done (write_head (cleared k) c₁) _ e₂ refl),
      )

  recover-Returns : CanRecover l (view l.dev c l.start) → Returns (recover_from_log l c)
  unfolding recover_from_log
  recover-Returns can =
      let (head, e) = read_head-Returns l c v spare start₀ in
      let w : HeadRead l 0 c head.0 head.1 =
        read_head-HeadRead l head.0 0 c head.1 v start₀ u (omega arith) e in
      >>=-Returns (read_head l c) _ (head, e) (rest head w can)
    where
      rest :
          (head : Log × Bcache)
          → HeadRead l 0 c head.0 head.1
          → CanRecover l (view l.dev c l.start)
          → Returns (
              if slt 0 head.0.n
              then recover_entries head.0 head.1
              else done (record { log = head.0; cache = head.1 }))
      rest head w (inl empty) =
          let n₀ : head.0.n ≡ 0 = ap (λ k. k.n) w.log ∙ empty in
          (record { log = head.0; cache = head.1 }, rw n₀)
      rest head w (inr (placed, pos, small)) =
          let k = head.0 in
          let pl : IsPlaced k = subst IsPlaced (sym w.log) placed in
          let nk : k.n ≡ get_word (view l.dev c l.start) 0 = ap (λ z. z.n) w.log in
          let on : slt 0 k.n ≡ true = ground (arith, pl.fits, pl.few) in
          let vd : IsValid k.dev head.1 =
            subst (λ d. IsValid d head.1) (sym (ap (λ z. z.dev) w.log)) w.same.valid in
          let (t, e) =
            entries-Returns k head.1 pl vd w.below (HeadRead-Spare w spare) (omega arith) in
          (t, rw on e)

-- A commit that would run to its end is cut at any of its disk writes, and the machine boots from
-- what the disk holds then, with the same log area. Recovery runs to its end, and leaves either all of
-- the blocks of the file system as they were before the transaction, or all as it made them. The
-- log is not empty, its entries are 32-bit block numbers outside the log area, other than 0, the cache is valid and its
-- reference counts are small, and the header on the disk was clear.
pub crash_recovers :
    (s s' : Store) (l₀ : Log) (w : List (ℕ × Block)) (r : ℕ)
    → IsPlaced s.log
    → SameArea s.log l₀
    → s.log.dev ≡ 0
    → 0 < s.log.n
    → r + 4 * s.log.n + 16 < 2 ^ 31
    → ((i : ℕ) → i < s.log.n → s.log.block i < 2 ^ 32)
    → IsValid s.log.dev s.cache
    → Below r s.cache
    → get_word (before s s.log.start) 0 ≡ 0
    → commit s ≡ done s'
    → Cut s.cache.written w
    → Cut w s'.cache.written
    → (s'' : Store) × (recover_from_log l₀ (boot s.cache.image w) ≡ done s'') × AllOrNothing s s''
unfolding commit
crash_recovers s s' l₀ w r placed area dev₀ pos small words v b clean ran lo hi =
    let on : slt 0 s.log.n ≡ true = ground (arith, placed.fits, placed.few) in
    let ran' : commit_entries s ≡ done s' =
      subst (λ t. (if t then commit_entries s else done s) ≡ done s') on ran in
    let d = commit_entries-Committed s r s' placed v b (omega arith) ran' in
    let at =
      Cut-During s.log (old_header s placed) (new_contents s) s.cache.written w lo
        (subst (Cut w) d.written hi) in
    let (s'', e) =
      recover-Returns l₀ c valid (omega (arith, area.start, placed.after_boot))
        (boot-Below s.cache.image w 0) (boot-Spare s.cache.image w)
        (subst (CanRecover l₀) (sym seen) (stage at)) in
    (
      s'',
      e,
      crash_atomic s s' s'' l₀ w r placed area dev₀ pos (omega arith) words v b clean ran' lo hi e,
    )
  where
    c : Bcache
    c = boot s.cache.image w

    valid : IsValid l₀.dev c
    valid = subst (λ d. IsValid d c) (sym dev₀ ∙ sym area.dev) (boot-IsValid s.cache.image w)

    seen : view l₀.dev c l₀.start ≡ read_block s.cache.image w s.log.start
    seen =
        ap₂ (λ d m. view d c m) (area.dev ∙ dev₀) area.start
        ∙ view-boot s.cache.image w s.log.start
        ∙ ap₂ (λ im v. read_block im v s.log.start) (image-boot s.cache.image w)
            (written-boot s.cache.image w)

    stage :
        During s.log (old_header s placed) (new_contents s) s.cache.written w
        → CanRecover l₀ (read_block s.cache.image w s.log.start)
    stage (preparing j le e) = inl (
        ap (λ v. get_word (disk_at s placed v s.log.start) 0) e
        ∙ ap (λ b. get_word b 0) (prepared-start s placed j le)
        ∙ clean)
    stage (installing j le e) =
        let k : read_block s.cache.image w s.log.start ≡ header s.log (old_header s placed) =
          ap (λ v. disk_at s placed v s.log.start) e ∙ sealed-header s placed j le in
        let n = reloaded-n s.log l₀ (old_header s placed) placed area words in
        subst (CanRecover l₀) (sym k) (
          inr (
            reloaded-IsPlaced s.log l₀ (old_header s placed) placed area words,
            omega (arith, n),
            omega (arith, n),
          ))
    stage (finished e) = inl (
        ap (λ v. get_word (disk_at s placed v s.log.start) 0) e
        ∙ ap (λ b. get_word b 0) (read_block-cons_self s.cache.image _ s.log.start _)
        ∙ header-count (cleared s.log) (header s.log (old_header s placed)) (omega arith))
