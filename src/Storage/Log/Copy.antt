-- ===== src/Storage/Log/Copy.antt =====
-- kernel/log.c: one block is copied onto another through the cache, as `write_log` and `install_trans`
-- do for each entry of the log.
use native.Mathlib.Decide.{ℕ_discrete}
use riscvos.Common.Word.{inc32}
use riscvos.Common.{
  true, false, ℕ, ◌+◌, ◌<◌, ◌^◌, ◌≡◌, refl, ◌≢◌, ◌∙◌, Bool, true, false, ◌∷◌, arith, sym, ap, ap₂,
  fun_ext, subst,
}
use riscvos.Common.Outcome.{done, >>=-eq-done}
use riscvos.Storage.Bio.{Bcache, bread, brelse}
use riscvos.Storage.Log.{Log, slot, mark_clean, log_entry, install_entry}
use riscvos.Storage.Bio.Lookup.{listed}
use riscvos.Storage.Bio.Invariant.{IsValid, view}
use riscvos.Storage.Bio.View.{Same, Same-trans}
use riscvos.Storage.Bio.Ops.{Held, Below, bread-Read, Read-Held, Read-Held_self, Read-Below}
use riscvos.Storage.Bio.Write.{
  disk-write_through, write_through, write_through-Written, Released, brelse-Released,
}

-- Two blocks in use at once.
pub record Pair (dev a b : ℕ) (c : Bcache) (r p q : ℕ) (c' : Bcache) : Type 0 where
  pub same : Same dev c c'
  pub first : Held c' p a
  pub second : Held c' q b
  pub apart : p ≢ q
  pub first_bytes : (c'.buf p).bytes ≡ view dev c a
  pub second_bytes : (c'.buf q).bytes ≡ view dev c b
  pub below : Below (r + 2) c'
  pub lru : c'.lru ≡ c.lru
  pub clean : (x : ℕ) → (c.buf x).disk ≡ false → (c'.buf x).disk ≡ false
  pub ref_first : (c'.buf p).refcnt ≡ inc32 (c.buf p).refcnt
  pub ref_second : (c'.buf q).refcnt ≡ inc32 (c.buf q).refcnt
  pub ref_others : (x : ℕ) → x ≢ p → x ≢ q → (c'.buf x).refcnt ≡ (c.buf x).refcnt

module _ {dev a b r : ℕ} {c : Bcache} (v : IsValid dev c) (ha : a ≢ 0) (hb : b ≢ 0) (ne : a ≢ b)
    (below : Below r c) (small : r + 2 < 2 ^ 32) where
  pub reads-Pair :
      {p q : ℕ} {c₁ c₂ : Bcache}
      → bread dev a c ≡ done (p, c₁)
      → bread dev b c₁ ≡ done (q, c₂)
      → Pair dev a b c r p q c₂
  reads-Pair {p} {q} {c₁} {c₂} e₁ e₂ =
      let r₁ = bread-Read v ha e₁ in
      let v₁ = r₁.same.valid in
      let r₂ = bread-Read v₁ hb e₂ in
      let h₁ : Held c₁ p a = Read-Held_self v ha r (omega arith) below r₁ in
      let b₁ : Below (r + 1) c₁ = Read-Below v ha r (omega arith) below r₁ in
      let b₂ : Below (r + 1 + 1) c₂ = Read-Below v₁ hb (r + 1) (omega arith) b₁ r₂ in
      record {
        same = Same-trans r₁.same r₂.same;
        first = Read-Held v₁ hb r₂ p a ne h₁;
        second = Read-Held_self v₁ hb (r + 1) (omega arith) b₁ r₂;
        apart = r₂.kept p a ne h₁;
        first_bytes = ap (λ x. x.bytes) (r₂.others p (r₂.kept p a ne h₁)) ∙ r₁.bytes;
        second_bytes = r₂.bytes ∙ r₁.same.view_eq b hb;
        below = λ x. omega (arith, b₂ x);
        lru = r₂.lru ∙ r₁.lru;
        clean = λ x d. r₂.clean x (r₁.clean x d);
        ref_first = ap (λ y. y.refcnt) (r₂.others p (r₂.kept p a ne h₁)) ∙ r₁.ref;
        ref_second =
            r₂.ref ∙ ap (λ y. inc32 y.refcnt) (r₁.others q (λ z. r₂.kept p a ne h₁ (sym z)));
        ref_others = λ x xp xq. ap (λ y. y.refcnt) (r₂.others x xq ∙ r₁.others x xp);
      }

-- What copying block `src` onto block `dst` through the cache leaves.
pub record Copied (dev src dst r : ℕ) (c c' : Bcache) : Type 0 where
  pub valid : IsValid dev c'
  pub image : c'.image ≡ c.image
  pub written : c'.written ≡ (dst, view dev c src) ∷ c.written
  pub view_dst : view dev c' dst ≡ view dev c src
  pub view_ne : (m : ℕ) → m ≢ 0 → m ≢ dst → view dev c' m ≡ view dev c m
  pub below : Below (r + 2) c'
  pub refs : (x : ℕ) → (c'.buf x).refcnt ≡ (c.buf x).refcnt
  pub listed_kept : (x : ℕ) → listed x c.lru ≡ true → listed x c'.lru ≡ true
  pub clean : (x : ℕ) → (c.buf x).disk ≡ false → (c'.buf x).disk ≡ false

-- Giving a buffer in use back lowers its count.
pub Released-Below :
    {dev p n r : ℕ} {c c' : Bcache}
    → Held c p n
    → Below r c
    → r < 2 ^ 32
    → Released dev p c c'
    → Below r c'
Released-Below {p = p} {r = r} {c = c} held below small rel q = elim (ℕ_discrete q p) [
  | yes e ↦ rw e (omega (arith, rel.ref, held.in_use, below p))
  | no ne ↦ rw (rel.refs q ne) (below q)
]

-- The same two blocks, named the other way round.
Pair-swap : {dev a b r p q : ℕ} {c c' : Bcache} → Pair dev a b c r p q c' → Pair dev b a c r q p c'
Pair-swap t = record {
  same = t.same;
  first = t.second;
  second = t.first;
  apart = λ z. t.apart (sym z);
  first_bytes = t.second_bytes;
  second_bytes = t.first_bytes;
  below = t.below;
  lru = t.lru;
  clean = t.clean;
  ref_first = t.ref_second;
  ref_second = t.ref_first;
  ref_others = λ x xp xq. t.ref_others x xq xp;
}

module _ {dev src dst r p q : ℕ} {c c₂ : Bcache} (hd : dst ≢ 0) (small : r + 2 < 2 ^ 32)
    (old : Below r c) (t : Pair dev dst src c r p q c₂) where
  open t use {same, apart}

  pub finish-Copied :
      Copied dev src dst r c (brelse p (brelse q (write_through p (c₂.buf q).bytes c₂)))
  finish-Copied =
      let w = write_through-Written same.valid p dst hd t.first (c₂.buf q).bytes in
      let r₁ = brelse-Released w.valid q in
      let r₂ = brelse-Released r₁.same.valid p in
      let s = Same-trans r₁.same r₂.same in
      let b₁ : Below (r + 2) (write_through p (c₂.buf q).bytes c₂) =
        λ x. rw (w.refs x) (t.below x) in
      let b₂ = Released-Below (w.held q src t.second) b₁ (omega arith) r₁ in
      record {
        valid = s.valid;
        image = s.image ∙ w.image ∙ same.image;
        written = s.written ∙ w.written ∙ ap₂ (λ x w. (dst, x) ∷ w) t.second_bytes same.written;
        view_dst = s.view_eq dst hd ∙ w.view_self ∙ t.second_bytes;
        view_ne = λ m h ne. s.view_eq m h ∙ w.view_ne m h ne ∙ same.view_eq m h;
        below = Released-Below (r₁.others p dst apart (w.held p dst t.first)) b₂ (omega arith) r₂;
        refs = λ x. elim (ℕ_discrete x p) [
          | yes e ↦ rw e (ground (arith, r₂.ref, r₁.refs p apart, w.refs p, t.ref_first, old p))
          | no np ↦ elim (ℕ_discrete x q) [
            | yes e ↦ rw e (
                ground
                  (arith, r₂.refs q (λ z. apart (sym z)), r₁.ref, w.refs q, t.ref_second, old q))
            | no nq ↦ r₂.refs x np ∙ r₁.refs x nq ∙ w.refs x ∙ t.ref_others x np nq
          ]
        ];
        listed_kept = λ x h.
            r₂.listed_kept x
              (r₁.listed_kept x (subst (λ u. listed x u ≡ true) (sym (w.lru ∙ t.lru)) h));
        clean = λ x d. r₂.clean x (r₁.clean x (w.clean x (t.clean x d)));
      }

-- Marking a clean buffer clean changes nothing.
mark_clean_id :
    (recovering : Bool) (p : ℕ) (c : Bcache)
    → (c.buf p).disk ≡ false
    → mark_clean recovering p c ≡ c
unfolding mark_clean
mark_clean_id true p c h = refl
mark_clean_id false p c h = ap (λ f. record c { buf = f }) (fun_ext λ q. ground arith)

module _ {r : ℕ} {c c' : Bcache} (l : Log) (tail : ℕ) (v : IsValid l.dev c) (hs : slot l tail ≢ 0)
    (hb : l.block tail ≢ 0) (ne : slot l tail ≢ l.block tail) (below : Below r c)
    (small : r + 2 < 2 ^ 32) where
  pub log_entry-Copied :
      log_entry l tail c ≡ done c' → Copied l.dev (l.block tail) (slot l tail) r c c'
  unfolding log_entry
  log_entry-Copied e =
      let (to, e₁, rest) = >>=-eq-done (bread l.dev (slot l tail) c) _ e in
      let (from, e₂, last) = >>=-eq-done (bread l.dev (l.block tail) to.1) _ rest in
      let t = reads-Pair v hs hb ne below small e₁ e₂ in
      let eq : brelse to.0 (brelse from.0 (write_through to.0 (from.1.buf from.0).bytes from.1))
          ≡ c' =
        cc in
      subst (Copied l.dev (l.block tail) (slot l tail) r c) eq (finish-Copied hs small below t)

  pub install_entry-Copied :
      (recovering : Bool)
      → install_entry recovering l tail c ≡ done c'
      → Copied l.dev (slot l tail) (l.block tail) r c c'
  unfolding install_entry
  install_entry-Copied recovering e =
      let (lbuf, e₁, rest) = >>=-eq-done (bread l.dev (slot l tail) c) _ e in
      let (dbuf, e₂, last) = >>=-eq-done (bread l.dev (l.block tail) lbuf.1) _ rest in
      let t = reads-Pair v hs hb ne below small e₁ e₂ in
      let w = write_through dbuf.0 (dbuf.1.buf lbuf.0).bytes dbuf.1 in
      let m : mark_clean recovering dbuf.0 w ≡ w =
        mark_clean_id recovering dbuf.0 w (disk-write_through _ _ _) in
      let eq : brelse dbuf.0 (brelse lbuf.0 (mark_clean recovering dbuf.0 w)) ≡ c' = cc in
      subst (Copied l.dev (slot l tail) (l.block tail) r c)
        (ap (λ d. brelse dbuf.0 (brelse lbuf.0 d)) (sym m) ∙ eq)
        (finish-Copied hb small below (Pair-swap t))
