-- ===== src/Storage/Log/Crash.antt =====
-- kernel/log.c: a commit that the power cuts short, followed by the recovery of the next boot.
use riscvos.Common.{
  ℕ, ◌+◌, ◌*◌, ◌<◌, ◌^◌, ◌≡◌, ◌≢◌, ◌∙◌, ◌⊎◌, inl, inr, List, arith, sym, ap, ap₂, subst,
}
use riscvos.Common.Outcome.{done}
use riscvos.Common.Word.{rounds, add32}
use riscvos.Storage.Bio.Write.{read_block-cons_self, read_block-cons_ne}
use riscvos.Storage.Bio.{Block, Bcache, read_block, disk_block, boot}
use riscvos.Storage.Bio.Boot.{boot-IsValid, view-boot, boot-Below, image-boot, written-boot}
use riscvos.Storage.Bio.Invariant.{IsValid, view}
use riscvos.Storage.Bio.Ops.{Below}
use riscvos.Storage.Bytes.{get_word}
use riscvos.Storage.Log.{Log, Store, slot, header, load_blocks, commit_entries, recover_from_log}
use riscvos.Storage.Log.Trace.{IsPlaced, installed, installed_congr}
use riscvos.Storage.Log.Commit.{cleared, new_contents, Committed, commit_entries-Committed}
use riscvos.Storage.Log.Header.{header-count, header-entry}
use riscvos.Storage.Log.Recover.{loaded, log_contents, recover_empty, recover_entries_from}
use riscvos.Storage.Log.Points.{
  IsHome, before, after, old_header, disk_at, home-ne-start, prepared-home, sealed-header,
  sealed-slot, installing-home, installed-home, prepared-start,
}
use riscvos.Storage.Log.Cut.{Cut, During, preparing, installing, finished, Cut-During}

-- The log of the next boot: `init_log` gives it the same area, and nothing else is known of it.
pub record SameArea (l l₀ : Log) : Type 0 where
  pub start : l₀.start ≡ l.start
  pub size : l₀.size ≡ l.size
  pub dev : l₀.dev ≡ l.dev

-- A log that is loaded from a header which `l` wrote has the entries of `l`.
module _ (l l₀ : Log) (h : Block) (placed : IsPlaced l) (area : SameArea l l₀)
    (words : (i : ℕ) → i < l.n → l.block i < 2 ^ 32) where
  pub reloaded-n : (loaded l₀ (header l h)).n ≡ l.n
  reloaded-n = header-count l h (omega (arith, placed.fits, placed.few))

  reloaded-block : (i : ℕ) → i < l.n → (loaded l₀ (header l h)).block i ≡ l.block i
  reloaded-block i hi =
      let r : rounds (get_word (header l h) 0) ≡ l.n =
        ground (arith, reloaded-n, placed.fits, placed.few) in
      ap (λ k. load_blocks (header l h) 0 k l₀.block i) r
      ∙ header-entry l h l₀.block i (omega (arith, placed.fits, placed.few)) hi (words i hi)

  pub reloaded-IsPlaced : IsPlaced (loaded l₀ (header l h))
  reloaded-IsPlaced = record {
    after_boot = omega (arith, area.start, placed.after_boot);
    fits = omega (arith, area.start, area.size, placed.fits);
    few = omega (arith, area.size, placed.few, reloaded-n);
    home = λ i hi.
        let hi' : i < l.n = omega (arith, reloaded-n) in
        omega (arith, reloaded-block i hi', placed.home i hi', area.start, area.size);
    home_ne_zero = λ i hi.
        let hi' : i < l.n = omega (arith, reloaded-n) in
        omega (arith, reloaded-block i hi', placed.home_ne_zero i hi');
  }

-- The recovery of the next boot, from a disk that has completed the requests `w`.
module _ (s s'' : Store) (l₀ : Log) (w : List (ℕ × Block)) (placed : IsPlaced s.log)
    (area : SameArea s.log l₀) (dev₀ : s.log.dev ≡ 0) (small : 4 * s.log.n + 8 < 2 ^ 31)
    (words : (i : ℕ) → i < s.log.n → s.log.block i < 2 ^ 32)
    (recovered : recover_from_log l₀ (boot s.cache.image w) ≡ done s'') where
  abbrev pub booted : Bcache
  booted = boot s.cache.image w

  abbrev pub on_disk : ℕ → Block
  on_disk = read_block s.cache.image w

  pub booted-IsValid : IsValid l₀.dev booted
  booted-IsValid =
      subst (λ d. IsValid d booted) (sym dev₀ ∙ sym area.dev) (boot-IsValid s.cache.image w)

  pub view-booted : (m : ℕ) → view l₀.dev booted m ≡ on_disk m
  view-booted m =
      ap (λ d. view d booted m) (area.dev ∙ dev₀)
      ∙ view-boot s.cache.image w m
      ∙ ap (λ im. read_block im booted.written m) (image-boot s.cache.image w)
      ∙ ap (λ v. read_block s.cache.image v m) (written-boot s.cache.image w)

  start_ne_zero : l₀.start ≢ 0
  start_ne_zero = omega (arith, area.start, placed.after_boot)

  -- An empty header on the disk: the disk stays as it is.
  recovered_empty :
      get_word (on_disk s.log.start) 0 ≡ 0 → (m : ℕ) → disk_block s''.cache m ≡ on_disk m
  recovered_empty empty m =
      let e : get_word (view l₀.dev booted l₀.start) 0 ≡ 0 =
        ap (λ b. get_word b 0) (ap (view l₀.dev booted) area.start ∙ view-booted s.log.start)
        ∙ empty in
      let r =
        recover_empty l₀ 0 booted s'' booted-IsValid start_ne_zero (boot-Below s.cache.image w 0)
          (omega arith) e recovered in
      ap₂ (λ im v. read_block im v m) (r.1 ∙ image-boot s.cache.image w)
        (r.0 ∙ written-boot s.cache.image w)

  -- A full header on the disk: the entries are installed.
  recovered_full :
      (h : Block) (x : ℕ → Block)
      → 0 < s.log.n
      → on_disk s.log.start ≡ header s.log h
      → ((i : ℕ) → i < s.log.n → on_disk (slot s.log i) ≡ x i)
      → (m : ℕ) → m ≢ s.log.start
      → disk_block s''.cache m ≡ read_block s.cache.image (installed s.log x 0 s.log.n w) m
  recovered_full h x pos head slots m ne =
      let lh : view l₀.dev booted l₀.start ≡ header s.log h =
        ap (view l₀.dev booted) area.start ∙ view-booted s.log.start ∙ head in
      let l' = loaded l₀ (view l₀.dev booted l₀.start) in
      let same : l' ≡ loaded l₀ (header s.log h) = ap (loaded l₀) lh in
      let n' : l'.n ≡ s.log.n = ap (λ k. k.n) same ∙ reloaded-n s.log l₀ h placed area words in
      let r =
        recover_entries_from l₀ 0 booted s'' booted-IsValid start_ne_zero
          (boot-Below s.cache.image w 0)
          (subst IsPlaced (sym same) (reloaded-IsPlaced s.log l₀ h placed area words))
          (omega (arith, n')) (omega (arith, n')) recovered in
      let e : installed l' (log_contents l' booted) 0 l'.n booted.written
          ≡ installed s.log x 0 s.log.n w =
        ap₂ (λ k v. installed l' (log_contents l' booted) 0 k v) n' (written-boot s.cache.image w)
        ∙ installed_congr l' s.log (log_contents l' booted) x 0 s.log.n w
            (λ i lo hi.
              ap (λ k. k.block i) same
              ∙ reloaded-block s.log l₀ h placed area words i (omega arith))
            (λ i lo hi.
              view-booted (slot l' i)
              ∙ ap (λ a. on_disk (add32 (add32 a i) 1)) area.start
              ∙ slots i (omega arith)) in
      ap₂ (λ im v. read_block im v m) (r.1 ∙ image-boot s.cache.image w) r.2.1
      ∙ read_block-cons_ne s.cache.image _ l₀.start m (header (cleared l') r.2.0)
          (λ z. ne (z ∙ area.start))
      ∙ ap (λ v. read_block s.cache.image v m) e

-- What a reader finds after the next boot.
abbrev pub AllOrNothing : Store → Store → Type 0
AllOrNothing s s'' =
    ((m : ℕ) → IsHome s.log m → disk_block s''.cache m ≡ before s m)
    ⊎ ((m : ℕ) → IsHome s.log m → disk_block s''.cache m ≡ after s m)

-- Wherever the power fails in the course of a commit, the recovery of the next boot leaves either all
-- of the blocks of the file system as they were before the transaction, or all as it made them.
pub crash_atomic :
    (s s' s'' : Store) (l₀ : Log) (w : List (ℕ × Block)) (r : ℕ)
    → IsPlaced s.log
    → SameArea s.log l₀
    → s.log.dev ≡ 0
    → 0 < s.log.n
    → r + 4 * s.log.n + 8 < 2 ^ 31
    → ((i : ℕ) → i < s.log.n → s.log.block i < 2 ^ 32)
    → IsValid s.log.dev s.cache
    → Below r s.cache
    → get_word (before s s.log.start) 0 ≡ 0
    → commit_entries s ≡ done s'
    → Cut s.cache.written w
    → Cut w s'.cache.written
    → recover_from_log l₀ (boot s.cache.image w) ≡ done s''
    → AllOrNothing s s''
crash_atomic s s' s'' l₀ w r placed area dev₀ pos small words v b clean ran lo hi rec =
    let d : Committed s s' = commit_entries-Committed s r s' placed v b (omega arith) ran in
    let at : During s.log (old_header s placed) (new_contents s) s.cache.written w =
      Cut-During s.log (old_header s placed) (new_contents s) s.cache.written w lo
        (subst (Cut w) d.written hi) in
    stage at
  where
    stage :
        During s.log (old_header s placed) (new_contents s) s.cache.written w → AllOrNothing s s''
    stage (preparing j le e) = inl λ m h.
        recovered_empty s s'' l₀ w placed area dev₀ (omega arith) words rec
          (ap (λ v. get_word (disk_at s placed v s.log.start) 0) e
            ∙ ap (λ b. get_word b 0) (prepared-start s placed j le)
            ∙ clean)
          m
        ∙ ap (λ v. disk_at s placed v m) e
        ∙ prepared-home s placed j m le (omega (arith, h.outside))
    stage (installing j le e) = inr λ m h.
        recovered_full s s'' l₀ w placed area dev₀ (omega arith) words rec (old_header s placed)
          (new_contents s) pos
          (ap (λ v. disk_at s placed v s.log.start) e ∙ sealed-header s placed j le)
          (λ i hi. ap (λ v. disk_at s placed v (slot s.log i)) e ∙ sealed-slot s placed j i le hi) m
          (home-ne-start s placed h)
        ∙ ap (λ v. disk_at s placed (installed s.log (new_contents s) 0 s.log.n v) m) e
        ∙ installing-home s placed j m le h
    stage (finished e) = inr λ m h.
        recovered_empty s s'' l₀ w placed area dev₀ (omega arith) words rec
          (ap (λ v. get_word (disk_at s placed v s.log.start) 0) e
            ∙ ap (λ b. get_word b 0) (read_block-cons_self s.cache.image _ s.log.start _)
            ∙ header-count (cleared s.log) (header s.log (old_header s placed)) (omega arith))
          m
        ∙ ap (λ v. disk_at s placed v m) e
        ∙ read_block-cons_ne s.cache.image _ s.log.start m _ (home-ne-start s placed h)
        ∙ installed-home s placed m h
