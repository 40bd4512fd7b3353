-- ===== src/Storage/Bio/View.antt =====
-- kernel/bio.c: each operation of the cache against the contents that the kernel sees and the disk.
use native.Mathlib.Decide.{ℕ_discrete}
use riscvos.Common.{
  ℕ, ◌≡◌, refl, ◌≢◌, ◌∙◌, inl, inr, true, false, none, some, List, arith, update, Option-cases,
  Bool-cases, ap, fun_ext,
}
use riscvos.Common.Word.{inc32}
use riscvos.Storage.Bio.{Block, Buf, Bcache, read_block, disk_block, hit, victim, fill}
use riscvos.Storage.Bio.Lookup.{hit-matches, hit-update_key, victim-is_free}
use riscvos.Storage.Bio.Invariant.{
  IsValid, view, view-buffer, view_cases, with_ref, recycled, with_ref-IsValid, recycled-IsValid,
  replace-IsValid,
}

-- The kernel sees the same blocks, and nothing has gone to the disk.
pub record Same (dev : ℕ) (c c' : Bcache) : Type 0 where
  pub valid : IsValid dev c'
  pub image : c'.image ≡ c.image
  pub written : c'.written ≡ c.written
  pub view_eq : (n : ℕ) → n ≢ 0 → view dev c' n ≡ view dev c n

pub Same-trans : {dev : ℕ} {c d e : Bcache} → Same dev c d → Same dev d e → Same dev c e
Same-trans s t = record {
  valid = t.valid;
  image = t.image ∙ s.image;
  written = t.written ∙ s.written;
  view_eq = λ n h. t.view_eq n h ∙ s.view_eq n h;
}

-- A buffer after its block has been read from the disk.
abbrev pub loaded : Bcache → ℕ → Buf
loaded c p = record (c.buf p) { valid = true; disk = false; bytes = disk_block c (c.buf p).blockno }

pub fill_valid : (c : Bcache) (p : ℕ) → (c.buf p).valid ≡ true → fill p c ≡ c
unfolding fill
fill_valid c p e = rw e

pub fill_stale :
    (c : Bcache) (p : ℕ)
    → (c.buf p).valid ≡ false
    → fill p c ≡ record c { buf = update c.buf p (loaded c p) }
unfolding fill
fill_stale c p e = rw e (ap (λ f. record c { buf = f }) (fun_ext (λ q. ground arith)))

module _ {dev : ℕ} {c : Bcache} (v : IsValid dev c) where
  pub with_ref-Same : (p : ℕ) → Same dev c (with_ref c p)
  unfolding view
  with_ref-Same p = record {
    valid = with_ref-IsValid v p;
    image = refl;
    written = refl;
    view_eq = λ n h. ground (
      arith,
      hit-update_key dev n c.buf p (record (c.buf p) { refcnt = inc32 (c.buf p).refcnt }) c.lru refl
          refl,
      Option-cases (hit dev n c.buf c.lru),
    );
  }

  pub recycled-Same :
      (n p : ℕ)
      → hit dev n c.buf c.lru ≡ none
      → victim c.buf c.lru ≡ some p
      → Same dev c (recycled dev n c p)
  recycled-Same n p miss free = record {
    valid = v';
    image = refl;
    written = refl;
    view_eq = λ m h. elim (view_cases v' m) [
      | inl (q, key, _, e) ↦ elim (ℕ_discrete p q) [
        | yes pq ↦ elim (view_cases v m) [
          | inl (r, k, f, _) ↦ ground (arith, key, f)
          | inr (_, d) ↦ ground (arith, e, d, key)
        ]
        | no ne ↦ ground (arith, e, key, view-buffer v q m)
      ]
      | inr (none', e) ↦ elim (view_cases v m) [
        | inl (r, k, f, d) ↦ elim (ℕ_discrete p r) [
          | yes pr ↦ ground (arith, d, e, v.coherent r, victim-is_free c.buf c.lru p)
          | no ne ↦ ground (arith, v'.found r)
        ]
        | inr (_, d) ↦ ground (arith, e, d)
      ]
    ];
  }
    where
      v' : IsValid dev (recycled dev n c p)
      v' = recycled-IsValid v n p miss free

  -- Replacing a buffer's contents, not its key, along with a write to the disk.
  module _ (q : ℕ) (b : Buf) (w : List (ℕ × Block)) where
    abbrev pub replaced : Bcache
    replaced = record c { buf = update c.buf q b; written = w }

    pub replaced-view :
        b.dev ≡ (c.buf q).dev
        → b.blockno ≡ (c.buf q).blockno
        → (n : ℕ) → n ≢ 0
        → n ≢ b.blockno
        → read_block c.image w n ≡ disk_block c n
        → view dev replaced n ≡ view dev c n
    unfolding view
    replaced-view hd hk n h ne e = elim (Option-cases (hit dev n c.buf c.lru)) [
      | inl miss ↦ ground (arith, hit-update_key dev n c.buf q b c.lru hd hk)
      | inr (p, m) ↦
          ground
            (arith, hit-update_key dev n c.buf q b c.lru hd hk, hit-matches dev n c.buf c.lru p m)
    ]

  pub fill-Same : (p : ℕ) → (c.buf p).blockno ≢ 0 → Same dev c (fill p c)
  fill-Same p h = elim (Bool-cases (c.buf p).valid) [
    | inl e ↦
        rw (fill_valid c p e)
          (record { valid = v; image = refl; written = refl; view_eq = λ n h. refl })
    | inr e ↦ rw (fill_stale c p e) (record {
      valid = v';
      image = refl;
      written = refl;
      view_eq = λ n h. elim (ℕ_discrete n (c.buf p).blockno) [
        | yes k ↦ ground (arith, view-buffer v' p n, view-buffer v p n)
        | no k ↦ replaced-view p (loaded c p) c.written refl refl n h k refl
      ];
    })
  ]
    where
      v' : IsValid dev (replaced p (loaded c p) c.written)
      v' =
          replace-IsValid v p (loaded c p) c.written (v.one_dev p) refl (λ _ _. refl)
            (λ r _. v.coherent r)
