-- ===== src/Storage/Log/Total.antt =====
-- kernel/log.c: `commit` and `recover_from_log` as they are called, with their termination.
use riscvos.Common.{ℕ, ◌+◌, ◌*◌, ◌<◌, ◌^◌, ◌≡◌, refl, ◌≢◌, ◌∙◌, true, false, arith, ap₂}
use riscvos.Common.Outcome.{done, >>=-done}
use riscvos.Common.Word.{rounds, slt}
use riscvos.Storage.Bio.{read_block, disk_block}
use riscvos.Storage.Bio.Invariant.{IsValid, view}
use riscvos.Storage.Bio.Ops.{Below}
use riscvos.Storage.Bio.Write.{read_block-cons_ne}
use riscvos.Storage.Bio.Progress.{Spare}
use riscvos.Storage.Log.{
  Store, slot, write_log, write_log_from, write_head, install_trans, install_from, commit_entries,
  commit,
}
use riscvos.Storage.Log.Trace.{IsPlaced, slot_eq, write_log_from-Logged, install_from-Installed}
use riscvos.Storage.Log.Commit.{cleared, new_contents, write_head-Headed, commit_entries-Committed}
use riscvos.Storage.Log.Points.{IsHome, after, home-ne-start, installed-home}
use riscvos.Storage.Log.Progress.{
  write_head-Returns, Headed-Spare, write_log_from-Runs, install_from-Runs,
}

module _ (s : Store) (r : ℕ) {a b : ℕ} (placed : IsPlaced s.log) (v : IsValid s.log.dev s.cache)
    (u : Below r s.cache) (small : r + 4 * s.log.n + 8 < 2 ^ 31) (spare : Spare s.cache a b) where
  commit_entries-Returns : (s' : Store) × (commit_entries s ≡ done s') × Spare s'.cache a b
  unfolding commit_entries write_log install_trans
  commit_entries-Returns =
      let l = s.log in
      let k = rounds l.n in
      let rn : k ≡ l.n = ground (arith, placed.fits, placed.few) in
      let start₀ : l.start ≢ 0 = omega (arith, placed.after_boot) in
      let (c₁, e₁, s₁) =
        write_log_from-Runs l placed k 0 r s.cache (omega arith) v u (omega arith) spare in
      let w₁ =
        write_log_from-Logged l (new_contents s) placed k 0 r s.cache c₁ (omega arith) v
          (λ i hi. refl) u (omega arith) e₁ in
      let (c₂, e₂) = write_head-Returns l c₁ w₁.valid s₁ start₀ in
      let w₂ = write_head-Headed l (r + 2 * k) c₁ c₂ w₁.valid start₀ w₁.below (omega arith) e₂ in
      let s₂ = Headed-Spare w₂ s₁ in
      let (c₃, e₃, s₃) =
        install_from-Runs l placed false k 0 (r + 2 * k + 1) c₂ (omega arith) w₂.valid w₂.below
          (omega arith) s₂ in
      let inlog : (i : ℕ) → i < l.n → view l.dev c₂ (slot l i) ≡ new_contents s i = λ i hi.
        w₂.view_ne (slot l i) (omega (arith, slot_eq placed i hi))
          (omega (arith, slot_eq placed i hi))
        ∙ w₁.copied i (omega arith) (omega arith) in
      let w₃ =
        install_from-Installed l (new_contents s) placed false k 0 (r + 2 * k + 1) c₂ c₃
          (omega arith) w₂.valid inlog w₂.below (omega arith) e₃ in
      let (c₄, e₄) = write_head-Returns (cleared l) c₃ w₃.valid s₃ start₀ in
      let w₄ =
        write_head-Headed (cleared l) (r + 2 * k + 1 + 2 * k) c₃ c₄ w₃.valid start₀ w₃.below
          (omega arith) e₄ in
      (
        record { log = cleared l; cache = c₄ },
        >>=-done (write_log_from l 0 k s.cache) _ e₁ (
            >>=-done (write_head l c₁) _ e₂ (
              >>=-done (install_from false l 0 k c₂) _ e₃
                (>>=-done (write_head (cleared l) c₃) _ e₄ refl))),
        Headed-Spare w₄ s₃,
      )

-- From a valid cache with small reference counts and two buffers to recycle, and a log with some
-- entries, all outside the log area, a commit runs to its end: the blocks of the file system are on the
-- disk as the transaction made them, the log is empty, the cache is valid and the two buffers can
-- again be recycled.
pub commit_total :
    (s : Store) (r a b : ℕ)
    → IsPlaced s.log
    → IsValid s.log.dev s.cache
    → Below r s.cache
    → r + 4 * s.log.n + 8 < 2 ^ 31
    → Spare s.cache a b
    → 0 < s.log.n
    → (s' : Store) × (commit s ≡ done s')
      × ((m : ℕ) → IsHome s.log m → disk_block s'.cache m ≡ after s m)
      × (s'.log ≡ cleared s.log)
      × IsValid s.log.dev s'.cache
      × Spare s'.cache a b
unfolding commit
commit_total s r a b placed v u small spare pos =
    let (s', e, sp) = commit_entries-Returns s r placed v u small spare in
    let d = commit_entries-Committed s r s' placed v u (omega arith) e in
    let some_entries : slt 0 s.log.n ≡ true = ground (arith, placed.fits, placed.few) in
    (
      s',
      rw some_entries e,
      λ m h.
          ap₂ (λ im w. read_block im w m) d.image d.written
          ∙ read_block-cons_ne s.cache.image _ s.log.start m _ (home-ne-start s placed h)
          ∙ installed-home s placed m h,
      d.log,
      d.valid,
      sp,
    )
