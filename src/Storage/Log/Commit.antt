-- ===== src/Storage/Log/Commit.antt =====
-- kernel/log.c: `write_head`, and the whole of `commit` as the list of its disk writes.
use native.Mathlib.Decide.{ℕ_discrete}
use riscvos.Storage.Bio.Lookup.{listed}
use riscvos.Common.{
  true, sym, ℕ, ◌+◌, ◌*◌, ◌<◌, ◌^◌, ◌≡◌, refl, ◌≢◌, ◌∙◌, inl, false, List, ◌∷◌, arith, ap, ap₂,
  subst,
}
use riscvos.Common.Outcome.{done, >>=-eq-done}
use riscvos.Common.Word.{rounds}
use riscvos.Storage.Bio.{Block, Bcache, bread, brelse}
use riscvos.Storage.Bio.Invariant.{IsValid, view}
use riscvos.Storage.Bio.Ops.{Below, Read, bread-Read, Read-Held_self, Read-Below}
use riscvos.Storage.Bio.Write.{write_through, write_through-Written, brelse-Released}
use riscvos.Storage.Log.{
  Log, Store, slot, header, write_head, write_log, install_trans, write_log_from, install_from,
  commit_entries,
}
use riscvos.Storage.Log.Copy.{Released-Below}
use riscvos.Storage.Log.Trace.{
  IsPlaced, slot_eq, logged, installed, Logged, Installed, write_log_from-Logged,
  install_from-Installed,
}

pub record Headed (l : Log) (r : ℕ) (c c' : Bcache) : Type 0 where
  pub valid : IsValid l.dev c'
  pub image : c'.image ≡ c.image
  pub written : c'.written ≡ (l.start, header l (view l.dev c l.start)) ∷ c.written
  pub view_self : view l.dev c' l.start ≡ header l (view l.dev c l.start)
  pub view_ne : (m : ℕ) → m ≢ 0 → m ≢ l.start → view l.dev c' m ≡ view l.dev c m
  pub below : Below (r + 1) c'
  pub refs : (x : ℕ) → (c'.buf x).refcnt ≡ (c.buf x).refcnt
  pub listed_kept : (x : ℕ) → listed x c.lru ≡ true → listed x c'.lru ≡ true
  pub clean : (x : ℕ) → (c.buf x).disk ≡ false → (c'.buf x).disk ≡ false

-- `write_head` makes one request: the header block, with the count and the entries put in.
pub write_head-Headed :
    (l : Log) (r : ℕ) (c c' : Bcache)
    → IsValid l.dev c
    → l.start ≢ 0
    → Below r c
    → r + 1 < 2 ^ 32
    → write_head l c ≡ done c'
    → Headed l r c c'
unfolding write_head
write_head-Headed l r c c' v h b small e =
    let (buf, e₁, last) = >>=-eq-done (bread l.dev l.start c) _ e in
    let rd : Read l.dev l.start c buf.0 buf.1 = bread-Read v h e₁ in
    let held = Read-Held_self v h r small b rd in
    let x = header l (buf.1.buf buf.0).bytes in
    let w = write_through-Written rd.same.valid buf.0 l.start h held x in
    let rel = brelse-Released w.valid buf.0 in
    let eq : brelse buf.0 (write_through buf.0 x buf.1) ≡ c' = cc in
    let xe : x ≡ header l (view l.dev c l.start) = ap (header l) rd.bytes in
    let b₁ : Below (r + 1) (write_through buf.0 x buf.1) =
      λ p. rw (w.refs p) (Read-Below v h r small b rd p) in
    subst (Headed l r c) eq (record {
      valid = rel.same.valid;
      image = rel.same.image ∙ w.image ∙ rd.same.image;
      written = rel.same.written ∙ w.written ∙ ap₂ (λ y z. (l.start, y) ∷ z) xe rd.same.written;
      view_self = rel.same.view_eq l.start h ∙ w.view_self ∙ xe;
      view_ne = λ m hm ne. rel.same.view_eq m hm ∙ w.view_ne m hm ne ∙ rd.same.view_eq m hm;
      below = Released-Below (w.held buf.0 l.start held) b₁ (omega arith) rel;
      refs = λ x. elim (ℕ_discrete x buf.0) [
        | yes q ↦ rw q (ground (arith, rel.ref, w.refs buf.0, rd.ref, b buf.0))
        | no ne ↦ rel.refs x ne ∙ w.refs x ∙ ap (λ y. y.refcnt) (rd.others x ne)
      ];
      listed_kept =
          λ x h. rel.listed_kept x (subst (λ u. listed x u ≡ true) (sym (w.lru ∙ rd.lru)) h);
      clean = λ x d. rel.clean x (w.clean x (rd.clean x d));
    })

-- The requests of a commit of log `l` whose header block holds `h` and whose entries have the new
-- contents `x`, in front of the requests `w` made before.
abbrev pub cleared : Log → Log
cleared l = record l { n = 0 }

abbrev pub prepared : Log → (ℕ → Block) → List (ℕ × Block) → List (ℕ × Block)
prepared l x w = logged l x 0 l.n w

abbrev pub sealed : Log → Block → (ℕ → Block) → List (ℕ × Block) → List (ℕ × Block)
sealed l h x w = (l.start, header l h) ∷ prepared l x w

abbrev pub committed : Log → Block → (ℕ → Block) → List (ℕ × Block) → List (ℕ × Block)
committed l h x w =
    (l.start, header (cleared l) (header l h)) ∷ installed l x 0 l.n (sealed l h x w)

abbrev pub new_contents : Store → ℕ → Block
new_contents s i = view s.log.dev s.cache (s.log.block i)

-- What a commit leaves.
pub record Committed (s s' : Store) : Type 0 where
  pub log : s'.log ≡ cleared s.log
  pub valid : IsValid s.log.dev s'.cache
  pub image : s'.cache.image ≡ s.cache.image
  pub written :
      s'.cache.written
      ≡ committed s.log (view s.log.dev s.cache s.log.start) (new_contents s) s.cache.written

module _ (s : Store) (r : ℕ) (s' : Store) (placed : IsPlaced s.log) (v : IsValid s.log.dev s.cache)
    (b : Below r s.cache) (small : r + 4 * s.log.n + 8 < 2 ^ 32) where
  pub commit_entries-Committed : commit_entries s ≡ done s' → Committed s s'
  unfolding commit_entries write_log install_trans
  commit_entries-Committed e =
      let l = s.log in
      let n = l.n in
      let x = new_contents s in
      let h = view l.dev s.cache l.start in
      let rn : rounds n ≡ n = ground (arith, placed.fits, placed.few) in
      let start₀ : l.start ≢ 0 = omega (arith, placed.after_boot) in
      let (c₁, e₁, t₁) = >>=-eq-done (write_log_from l 0 (rounds n) s.cache) _ e in
      let (c₂, e₂, t₂) = >>=-eq-done (write_head l c₁) _ t₁ in
      let (c₃, e₃, t₃) = >>=-eq-done (install_from false l 0 (rounds n) c₂) _ t₂ in
      let (c₄, e₄, t₄) = >>=-eq-done (write_head (cleared l) c₃) _ t₃ in
      let w₁ : Logged l x 0 n r s.cache c₁ =
        write_log_from-Logged l x placed n 0 r s.cache c₁ (omega arith) v (λ i hi. refl) b
          (omega arith) (subst (λ k. write_log_from l 0 k s.cache ≡ done c₁) rn e₁) in
      let w₂ : Headed l (r + 2 * n) c₁ c₂ =
        write_head-Headed l (r + 2 * n) c₁ c₂ w₁.valid start₀ w₁.below (omega arith) e₂ in
      let inlog : (i : ℕ) → i < n → view l.dev c₂ (slot l i) ≡ x i = λ i hi.
        w₂.view_ne (slot l i) (omega (arith, slot_eq placed i hi))
          (omega (arith, slot_eq placed i hi))
        ∙ w₁.copied i (omega arith) (omega arith) in
      let w₃ : Installed l x 0 n (r + 2 * n + 1) c₂ c₃ =
        install_from-Installed l x placed false n 0 (r + 2 * n + 1) c₂ c₃ (omega arith) w₂.valid
          inlog w₂.below (omega arith) (subst (λ k. install_from false l 0 k c₂ ≡ done c₃) rn e₃) in
      let w₄ : Headed (cleared l) (r + 2 * n + 1 + 2 * n) c₃ c₄ =
        write_head-Headed (cleared l) (r + 2 * n + 1 + 2 * n) c₃ c₄ w₃.valid start₀ w₃.below
          (omega arith) e₄ in
      let away : (i : ℕ) → i < n → l.block i ≢ l.start =
        λ i hi. omega (arith, placed.home i hi, placed.few) in
      let h₁ : view l.dev c₁ l.start ≡ h = w₁.kept l.start start₀ (inl (omega arith)) in
      let h₃ : view l.dev c₃ l.start ≡ header l h =
        w₃.kept l.start start₀ away ∙ w₂.view_self ∙ ap (header l) h₁ in
      let eq : record { log = cleared l; cache = c₄ } ≡ s' = cc in
      subst (Committed s) eq (record {
        log = refl;
        valid = w₄.valid;
        image = w₄.image ∙ w₃.image ∙ w₂.image ∙ w₁.image;
        written =
            w₄.written
            ∙ ap₂ (λ y z. (l.start, header (cleared l) y) ∷ z) h₃
                (w₃.written
                  ∙ ap (installed l x 0 n)
                      (w₂.written ∙ ap₂ (λ y z. (l.start, header l y) ∷ z) h₁ w₁.written));
      })
