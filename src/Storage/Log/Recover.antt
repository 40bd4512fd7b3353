-- ===== src/Storage/Log/Recover.antt =====
-- kernel/log.c: `recover_from_log` as the list of its disk writes.
use native.Mathlib.Decide.{ℕ_discrete}
use riscvos.Storage.Bio.Lookup.{listed}
use riscvos.Common.{
  false, ℕ, ◌+◌, ◌*◌, ◌<◌, ◌^◌, ◌≡◌, refl, ◌≢◌, ◌∙◌, true, ◌∷◌, arith, sym, ap, subst,
  if◌then◌else◌,
}
use riscvos.Common.Outcome.{done, >>=-eq-done}
use riscvos.Common.Word.{rounds, slt}
use riscvos.Storage.Bio.{Block, Bcache, bread, brelse}
use riscvos.Storage.Bio.Invariant.{IsValid, view}
use riscvos.Storage.Bio.View.{Same, Same-trans}
use riscvos.Storage.Bio.Ops.{Below, Read, bread-Read, Read-Held_self, Read-Below}
use riscvos.Storage.Bio.Write.{brelse-Released}
use riscvos.Storage.Bytes.{get_word}
use riscvos.Storage.Log.{
  Log, Store, slot, header, load_blocks, read_head, write_head, install_trans, install_from,
  recover_entries, recover_from_log,
}
use riscvos.Storage.Log.Copy.{Released-Below}
use riscvos.Storage.Log.Trace.{
  IsPlaced, slot_eq, installed, installed_congr, Installed, install_from-Installed,
}
use riscvos.Storage.Log.Commit.{cleared, Headed, write_head-Headed}

-- The log with the count and the entries that header block `b` holds.
abbrev pub loaded : Log → Block → Log
loaded l b = record l { n = get_word b 0; block = load_blocks b 0 (rounds (get_word b 0)) l.block }

pub record HeadRead (l : Log) (r : ℕ) (c : Bcache) (l' : Log) (c' : Bcache) : Type 0 where
  pub log : l' ≡ loaded l (view l.dev c l.start)
  pub same : Same l.dev c c'
  pub below : Below (r + 1) c'
  pub refs : (x : ℕ) → (c'.buf x).refcnt ≡ (c.buf x).refcnt
  pub listed_kept : (x : ℕ) → listed x c.lru ≡ true → listed x c'.lru ≡ true
  pub clean : (x : ℕ) → (c.buf x).disk ≡ false → (c'.buf x).disk ≡ false

pub read_head-HeadRead :
    (l l' : Log) (r : ℕ) (c c' : Bcache)
    → IsValid l.dev c
    → l.start ≢ 0
    → Below r c
    → r + 1 < 2 ^ 32
    → read_head l c ≡ done (l', c')
    → HeadRead l r c l' c'
unfolding read_head
read_head-HeadRead l l' r c c' v h b small e =
    let (buf, e₁, last) = >>=-eq-done (bread l.dev l.start c) _ e in
    let rd : Read l.dev l.start c buf.0 buf.1 = bread-Read v h e₁ in
    let held = Read-Held_self v h r small b rd in
    let rel = brelse-Released rd.same.valid buf.0 in
    let eq₁ : loaded l (buf.1.buf buf.0).bytes ≡ l' = cc in
    let eq₂ : brelse buf.0 buf.1 ≡ c' = cc in
    subst (HeadRead l r c l') eq₂ (record {
      log = sym eq₁ ∙ ap (loaded l) rd.bytes;
      same = Same-trans rd.same rel.same;
      below = Released-Below held (Read-Below v h r small b rd) (omega arith) rel;
      refs = λ x. elim (ℕ_discrete x buf.0) [
        | yes q ↦ rw q (ground (arith, rel.ref, rd.ref, b buf.0))
        | no ne ↦ rel.refs x ne ∙ ap (λ y. y.refcnt) (rd.others x ne)
      ];
      listed_kept = λ x h. rel.listed_kept x (subst (λ u. listed x u ≡ true) (sym rd.lru) h);
      clean = λ x d. rel.clean x (rd.clean x d);
    })

-- What the entries of the log hold.
abbrev pub log_contents : Log → Bcache → ℕ → Block
log_contents l c i = view l.dev c (slot l i)

pub record Redone (l : Log) (c : Bcache) (s' : Store) : Type 0 where
  pub log : s'.log ≡ cleared l
  pub image : s'.cache.image ≡ c.image
  pub written :
      (h : Block) × (s'.cache.written
        ≡ (l.start, header (cleared l) h) ∷ installed l (log_contents l c) 0 l.n c.written)

pub recover_entries-Redone :
    (l : Log) (r : ℕ) (c : Bcache) (s' : Store)
    → IsPlaced l
    → IsValid l.dev c
    → Below r c
    → r + 2 * l.n + 4 < 2 ^ 32
    → recover_entries l c ≡ done s'
    → Redone l c s'
unfolding recover_entries install_trans
recover_entries-Redone l r c s' placed v b small e =
    let rn : rounds l.n ≡ l.n = ground (arith, placed.fits, placed.few) in
    let (c₁, e₁, t₁) = >>=-eq-done (install_from true l 0 (rounds l.n) c) _ e in
    let (c₂, e₂, t₂) = >>=-eq-done (write_head (cleared l) c₁) _ t₁ in
    let w₁ : Installed l (log_contents l c) 0 l.n r c c₁ =
      install_from-Installed l (log_contents l c) placed true l.n 0 r c c₁ (omega arith) v
        (λ i hi. refl) b (omega arith) (subst (λ k. install_from true l 0 k c ≡ done c₁) rn e₁) in
    let w₂ : Headed (cleared l) (r + 2 * l.n) c₁ c₂ =
      write_head-Headed (cleared l) (r + 2 * l.n) c₁ c₂ w₁.valid (omega (arith, placed.after_boot))
        w₁.below (omega arith) e₂ in
    let eq : record { log = cleared l; cache = c₂ } ≡ s' = cc in
    subst (Redone l c) eq (record {
      log = refl;
      image = w₂.image ∙ w₁.image;
      written = (
        view l.dev c₁ l.start,
        w₂.written ∙ ap (λ z. (l.start, header (cleared l) (view l.dev c₁ l.start)) ∷ z) w₁.written,
      );
    })

module _ (l : Log) (r : ℕ) (c : Bcache) (s' : Store) (v : IsValid l.dev c) (start₀ : l.start ≢ 0)
    (b : Below r c) where
  -- With an empty log, recovery reads the header and writes nothing.
  pub recover_empty :
      r + 1 < 2 ^ 32
      → get_word (view l.dev c l.start) 0 ≡ 0
      → recover_from_log l c ≡ done s'
      → (s'.cache.written ≡ c.written) × (s'.cache.image ≡ c.image) × (s'.log.n ≡ 0)
  unfolding recover_from_log
  recover_empty small empty e =
      let (head, e₁, t) = >>=-eq-done (read_head l c) _ e in
      let w = read_head-HeadRead l head.0 r c head.1 v start₀ b small e₁ in
      let n₀ : head.0.n ≡ 0 = ap (λ x. x.n) w.log ∙ empty in
      let eq : record { log = head.0; cache = head.1 } ≡ s' = ground arith in
      subst (λ s. (s.cache.written ≡ c.written) × (s.cache.image ≡ c.image) × (s.log.n ≡ 0)) eq
        (w.same.written, w.same.image, n₀)

  -- Otherwise it installs the entries that the header names, and clears the header.
  pub recover_entries_from :
      let l' = loaded l (view l.dev c l.start) in
      IsPlaced l'
      → 0 < l'.n
      → r + 2 * l'.n + 8 < 2 ^ 32
      → recover_from_log l c ≡ done s'
      → (s'.log ≡ cleared l')
        × (s'.cache.image ≡ c.image)
        × ((h : Block) × (s'.cache.written
              ≡ (l.start, header (cleared l') h)
                ∷ installed l' (log_contents l' c) 0 l'.n c.written))
  unfolding recover_from_log
  recover_entries_from placed pos small e =
      let l' = loaded l (view l.dev c l.start) in
      let (head, e₁, t) = >>=-eq-done (read_head l c) _ e in
      let w = read_head-HeadRead l head.0 r c head.1 v start₀ b (omega arith) e₁ in
      let hn : head.0.n ≡ l'.n = ap (λ x. x.n) w.log in
      let nn : slt 0 head.0.n ≡ true = ground (arith, placed.fits, placed.few) in
      let t' : recover_entries head.0 head.1 ≡ done s' =
        subst
          (λ b.
            (if b
              then recover_entries head.0 head.1
              else done (record { log = head.0; cache = head.1 }))
            ≡ done s')
          nn t in
      let t'' : recover_entries l' head.1 ≡ done s' =
        subst (λ x. recover_entries x head.1 ≡ done s') w.log t' in
      let d =
        recover_entries-Redone l' (r + 1) head.1 s' placed w.same.valid w.below (omega arith) t'' in
      (
        d.log,
        d.image ∙ w.same.image,
        (
          d.written.0,
          d.written.1
              ∙ ap (λ z. (l.start, header (cleared l') d.written.0) ∷ z)
                  (ap (installed l' (log_contents l' head.1) 0 l'.n) w.same.written
                    ∙ installed_congr l' l' (log_contents l' head.1) (log_contents l' c) 0 l'.n
                        c.written (λ i lo hi. refl)
                        (λ i lo hi.
                          w.same.view_eq (slot l' i)
                            (omega (arith, slot_eq placed i (omega arith))))),
        ),
      )
