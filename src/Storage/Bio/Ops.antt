-- ===== src/Storage/Bio/Ops.antt =====
-- kernel/bio.c: what `bread`, `bwrite` and `brelse` do for the code that calls them.
use native.Mathlib.Decide.{ℕ_discrete}
use riscvos.Common.{
  false, ℕ, ◌+◌, ◌<◌, ◌≤◌, ◌^◌, ◌≡◌, refl, ◌≢◌, ◌∙◌, inl, inr, true, arith, Bool-cases, subst, sym,
}
use riscvos.Common.Outcome.{done, >>=-eq-done}
use riscvos.Common.Word.{inc32}
use riscvos.Storage.Bio.{Bcache, bget, fill, bread}
use riscvos.Storage.Bio.Lookup.{hit-matches, victim-is_free}
use riscvos.Storage.Bio.Invariant.{IsValid, view, view-buffer, bget_cases}
use riscvos.Storage.Bio.View.{
  Same, Same-trans, with_ref-Same, recycled-Same, fill-Same, fill_valid, fill_stale,
}

-- A buffer in use: pointer `p` has block `n` loaded, and a reference keeps it from being recycled.
pub record Held (c : Bcache) (p n : ℕ) : Type 0 where
  pub key : (c.buf p).blockno ≡ n
  pub loaded : (c.buf p).valid ≡ true
  pub in_use : 0 < (c.buf p).refcnt

abbrev pub Below : ℕ → Bcache → Type 0
Below r c = (p : ℕ) → (c.buf p).refcnt ≤ r

-- What `bget` leaves: the block's buffer, with the references of the others as they were.
record Got (dev n : ℕ) (c : Bcache) (p : ℕ) (c' : Bcache) : Type 0 where
  same : Same dev c c'
  key : (c'.buf p).blockno ≡ n
  lru : c'.lru ≡ c.lru
  clean : (q : ℕ) → (c.buf q).disk ≡ false → (c'.buf q).disk ≡ false
  ref : (c'.buf p).refcnt ≡ inc32 (c.buf p).refcnt
  others : (q : ℕ) → q ≢ p → c'.buf q ≡ c.buf q
  kept : (q m : ℕ) → m ≢ n → Held c q m → q ≢ p

module _ {dev n p : ℕ} {c c' : Bcache} (v : IsValid dev c) (h : n ≢ 0) where
  bget-Got : bget dev n c ≡ done (p, c') → Got dev n c p c'
  bget-Got e = elim (bget_cases dev n c c' p e) [
    | inl (found, e') ↦ rw e' (record {
      same = with_ref-Same v p;
      key = ground (arith, hit-matches dev n c.buf c.lru p found);
      lru = refl;
      clean = λ q d. ground arith;
      ref = ground arith;
      others = λ q ne. ground arith;
      kept = λ q m ne held. ground (arith, held.key, hit-matches dev n c.buf c.lru p found);
    })
    | inr (miss, free, e') ↦ rw e' (record {
      same = recycled-Same v n p miss free;
      key = ground arith;
      lru = refl;
      clean = λ q d. ground arith;
      ref = ground (arith, victim-is_free c.buf c.lru p free);
      others = λ q ne. ground arith;
      kept = λ q m ne held. ground (arith, held.in_use, victim-is_free c.buf c.lru p free);
    })
  ]

-- A block with a loaded buffer is seen as that buffer's contents.
pub view-loaded :
    {dev : ℕ} {c : Bcache} (v : IsValid dev c) (p n : ℕ)
    → n ≢ 0
    → (c.buf p).blockno ≡ n
    → (c.buf p).valid ≡ true
    → view dev c n ≡ (c.buf p).bytes
view-loaded v p n h k l = view-buffer v p n k h ∙ (rw l)

-- What `bread` leaves: the buffer that it returns holds the block as the kernel sees it, nothing is
-- written, and no other buffer in use is touched.
pub record Read (dev n : ℕ) (c : Bcache) (p : ℕ) (c' : Bcache) : Type 0 where
  pub same : Same dev c c'
  pub key : (c'.buf p).blockno ≡ n
  pub loaded : (c'.buf p).valid ≡ true
  pub lru : c'.lru ≡ c.lru
  pub clean : (q : ℕ) → (c.buf q).disk ≡ false → (c'.buf q).disk ≡ false
  pub bytes : (c'.buf p).bytes ≡ view dev c n
  pub ref : (c'.buf p).refcnt ≡ inc32 (c.buf p).refcnt
  pub others : (q : ℕ) → q ≢ p → c'.buf q ≡ c.buf q
  pub kept : (q m : ℕ) → m ≢ n → Held c q m → q ≢ p

record Filled (p : ℕ) (c : Bcache) (c' : Bcache) : Type 0 where
  key : (c'.buf p).blockno ≡ (c.buf p).blockno
  loaded : (c'.buf p).valid ≡ true
  lru : c'.lru ≡ c.lru
  clean : (q : ℕ) → (c.buf q).disk ≡ false → (c'.buf q).disk ≡ false
  ref : (c'.buf p).refcnt ≡ (c.buf p).refcnt
  others : (q : ℕ) → q ≢ p → c'.buf q ≡ c.buf q

fill-Filled : (p : ℕ) (c : Bcache) → Filled p c (fill p c)
fill-Filled p c = elim (Bool-cases (c.buf p).valid) [
  | inl e ↦ rw (fill_valid c p e) (record {
    key = refl;
    loaded = e;
    lru = refl;
    clean = λ q d. d;
    ref = refl;
    others = λ q ne. refl;
  })
  | inr e ↦ rw (fill_stale c p e) (record {
    key = ground arith;
    loaded = ground arith;
    lru = refl;
    clean = λ q d. ground arith;
    ref = ground arith;
    others = λ q ne. ground arith;
  })
]

module _ {dev n p : ℕ} {c c' : Bcache} (v : IsValid dev c) (h : n ≢ 0) where
  -- In a valid cache, `bread` of a block other than 0, when it returns, gives a loaded buffer of that block,
  -- with the contents that the kernel sees and one reference more, whether it was cached or not;
  -- the cache stays valid, nothing is written and no other buffer changes.
  pub bread-Read : bread dev n c ≡ done (p, c') → Read dev n c p c'
  unfolding bread
  bread-Read e =
      let (r, e₁, e₂) = >>=-eq-done (bget dev n c) (λ r. done (r.0, fill r.0 r.1)) e in
      got r.0 r.1 e₁ (ground arith) (ground arith)
    where
      got :
          (q : ℕ) (d : Bcache)
          → bget dev n c ≡ done (q, d)
          → q ≡ p
          → fill q d ≡ c'
          → Read dev n c p c'
      got q d e₁ eq ed =
          let g : Got dev n c p d = bget-Got v h (subst (λ x. bget dev n c ≡ done (x, d)) eq e₁) in
          let f = fill-Filled p d in
          let k : (d.buf p).blockno ≢ 0 = λ z. h (sym g.key ∙ z) in
          let s = fill-Same g.same.valid p k in
          let w : fill p d ≡ c' = subst (λ x. fill x d ≡ c') eq ed in
          rw (← w) (record {
            same = Same-trans g.same s;
            key = f.key ∙ g.key;
            loaded = f.loaded;
            lru = f.lru ∙ g.lru;
            clean = λ q d. f.clean q (g.clean q d);
            bytes =
                sym (view-loaded s.valid p n h (f.key ∙ g.key) f.loaded)
                ∙ (Same-trans g.same s).view_eq n h;
            ref = f.ref ∙ g.ref;
            others = λ q ne. f.others q ne ∙ g.others q ne;
            kept = g.kept;
          })

  -- A buffer in use stays as it is while another block is read.
  pub Read-Held : Read dev n c p c' → (q m : ℕ) → m ≢ n → Held c q m → Held c' q m
  Read-Held r q m ne held =
      let e = r.others q (r.kept q m ne held) in
      record { key = rw e held.key; loaded = rw e held.loaded; in_use = rw e held.in_use }

  pub Read-Held_self : (r : ℕ) → r + 1 < 2 ^ 32 → Below r c → Read dev n c p c' → Held c' p n
  Read-Held_self r lt b rd = record {
    key = rd.key;
    loaded = rd.loaded;
    in_use = omega (arith, rd.ref, b p);
  }

  pub Read-Below : (r : ℕ) → r + 1 < 2 ^ 32 → Below r c → Read dev n c p c' → Below (r + 1) c'
  Read-Below r lt b rd q = elim (ℕ_discrete q p) [
    | yes e ↦ rw e (omega (arith, rd.ref, b p))
    | no ne ↦ rw (rd.others q ne) (omega (arith, b q))
  ]
