-- ===== src/Storage/Bio/Write.antt =====
-- kernel/bio.c: what a write through the cache and `brelse` do for the code that calls them.
use native.Mathlib.Decide.{ℕ_discrete}
use riscvos.Common.{
  true, false, ℕ, ◌≡◌, refl, ◌≢◌, ◌∙◌, inl, inr, false, List, ◌∷◌, arith, ==_refl, update,
  Option-cases, ap, fun_ext, sym,
}
use riscvos.Common.Word.{dec32}
use riscvos.Storage.Bio.{Block, Buf, Bcache, read_block, hit, unlink, bwrite, brelse, set_bytes}
use riscvos.Storage.Bio.Lookup.{
  listed, listed-front, hit-matches, hit-update_key, hit-unlink, hit-unlink-none,
}
use riscvos.Storage.Bio.Invariant.{IsValid, view, replace-IsValid}
use riscvos.Storage.Bio.View.{Same, replaced, replaced-view}
use riscvos.Storage.Bio.Ops.{Held, view-loaded}

-- `bp->data` is overwritten and the block is written to the disk.
unfoldable pub write_through : ℕ → Block → Bcache → Bcache
unfolding bwrite set_bytes
write_through p x c = bwrite p (set_bytes p x c)

-- What that leaves: the kernel and the disk have the new block, and nothing else has changed.
pub record Written (dev n : ℕ) (x : Block) (c c' : Bcache) : Type 0 where
  pub valid : IsValid dev c'
  pub image : c'.image ≡ c.image
  pub written : c'.written ≡ (n, x) ∷ c.written
  pub view_self : view dev c' n ≡ x
  pub view_ne : (m : ℕ) → m ≢ 0 → m ≢ n → view dev c' m ≡ view dev c m
  pub held : (q m : ℕ) → Held c q m → Held c' q m
  pub lru : c'.lru ≡ c.lru
  pub clean : (q : ℕ) → (c.buf q).disk ≡ false → (c'.buf q).disk ≡ false
  pub refs : (q : ℕ) → (c'.buf q).refcnt ≡ (c.buf q).refcnt

abbrev clean_copy : Block → Buf → Buf
clean_copy x b = record b { disk = false; bytes = x }

write_through_eq :
    (p n : ℕ) (x : Block) (c : Bcache)
    → (c.buf p).blockno ≡ n
    → write_through p x c
      ≡ record c { buf = update c.buf p (clean_copy x (c.buf p)); written = (n, x) ∷ c.written }
unfolding write_through
write_through_eq p n x c k = rw (==_refl p) (
    ap (λ f. record c { buf = f; written = ((c.buf p).blockno, x) ∷ c.written })
      (fun_ext λ q. ground arith)
    ∙ ap
        (λ m. record c {
          buf = update c.buf p (clean_copy x (c.buf p));
          written = (m, x) ∷ c.written;
        })
        k)

-- The request that `bwrite` makes leaves the buffer clean.
pub disk-write_through :
    (p : ℕ) (x : Block) (c : Bcache) → ((write_through p x c).buf p).disk ≡ false
unfolding write_through
disk-write_through p x c = ground arith

pub read_block-cons_self :
    (image : ℕ → Block) (w : List (ℕ × Block)) (n : ℕ) (x : Block)
    → read_block image ((n, x) ∷ w) n ≡ x
unfolding read_block
read_block-cons_self image w n x = rw (==_refl n)

pub read_block-cons_ne :
    (image : ℕ → Block) (w : List (ℕ × Block)) (n m : ℕ) (x : Block)
    → m ≢ n
    → read_block image ((n, x) ∷ w) m ≡ read_block image w m
unfolding read_block
read_block-cons_ne image w n m x h = ground arith

module _ {dev : ℕ} {c : Bcache} (v : IsValid dev c) (p n : ℕ) (h : n ≢ 0) (held : Held c p n) where
  -- In a valid cache, a write through a loaded and referenced buffer of a block other than 0 is what the
  -- disk completes next and what the kernel sees of that block; other blocks, references and the
  -- list stay as they are, and the cache stays valid.
  pub write_through-Written : (x : Block) → Written dev n x c (write_through p x c)
  write_through-Written x = rw (write_through_eq p n x c held.key) (record {
    valid = v';
    image = refl;
    written = refl;
    view_self =
        view-loaded v' p n h (ground (arith, held.key)) (ground (arith, held.loaded))
        ∙ ground arith;
    view_ne = λ m hm ne.
        replaced-view v p b w refl refl m hm (ground (arith, held.key))
          (read_block-cons_ne c.image c.written n m x ne);
    held = λ q m k. record {
      key = ground (arith, k.key);
      loaded = ground (arith, k.loaded);
      in_use = ground (arith, k.in_use);
    };
    lru = refl;
    clean = λ q d. ground arith;
    refs = λ q. ground arith;
  })
    where
      b : Buf
      b = clean_copy x (c.buf p)

      w : List (ℕ × Block)
      w = (n, x) ∷ c.written

      alone : (q : ℕ) → p ≢ q → (c.buf q).blockno ≢ n
      alone q ne k = ground (arith, v.found p, v.found q, held.key)

      v' : IsValid dev (replaced v p b w)
      v' =
          replace-IsValid v p b w (v.one_dev p) refl
            (λ _ _.
              sym (read_block-cons_self c.image c.written n x)
              ∙ ap (read_block c.image w) (sym held.key))
            (λ q ne l d.
              v.coherent q l d
              ∙ sym (read_block-cons_ne c.image c.written n (c.buf q).blockno x (alone q ne)))

-- What `brelse` leaves.
pub record Released (dev p : ℕ) (c c' : Bcache) : Type 0 where
  pub same : Same dev c c'
  pub others : (q m : ℕ) → q ≢ p → Held c q m → Held c' q m
  pub listed_kept : (q : ℕ) → listed q c.lru ≡ true → listed q c'.lru ≡ true
  pub clean : (q : ℕ) → (c.buf q).disk ≡ false → (c'.buf q).disk ≡ false
  pub ref : (c'.buf p).refcnt ≡ dec32 (c.buf p).refcnt
  pub refs : (q : ℕ) → q ≢ p → (c'.buf q).refcnt ≡ (c.buf q).refcnt

abbrev unreferenced : Buf → Buf
unreferenced b = record b { refcnt = dec32 b.refcnt }

module _ {dev : ℕ} {c : Bcache} (v : IsValid dev c) (p : ℕ) where
  -- Moving a buffer to the front does not change which buffer is found.
  hit-front : (n : ℕ) → n ≢ 0 → hit dev n c.buf (p ∷ unlink p c.lru) ≡ hit dev n c.buf c.lru
  unfolding hit
  hit-front n h = elim (Option-cases (hit dev n c.buf c.lru)) [
    | inl e ↦ ground (arith, v.found p, hit-unlink-none dev n c.buf p c.lru e)
    | inr (q, e) ↦ elim (ℕ_discrete p q) [
      | yes k ↦ ground (arith, hit-matches dev n c.buf c.lru q e)
      | no ne ↦ ground (arith, v.found p, hit-unlink dev n c.buf p c.lru q ne e)
    ]
  ]

  hit-brelse : (n : ℕ) → n ≢ 0 → hit dev n (brelse p c).buf (brelse p c).lru ≡ hit dev n c.buf c.lru
  unfolding brelse
  hit-brelse n h =
      hit-update_key dev n c.buf p (unreferenced (c.buf p)) _ refl refl
      ∙ ground (arith, hit-front n h)

  view-brelse : (n : ℕ) → n ≢ 0 → view dev (brelse p c) n ≡ view dev c n
  unfolding view brelse
  view-brelse n h = ground (arith, hit-brelse n h, Option-cases (hit dev n c.buf c.lru))

  -- In a valid cache, giving a buffer back takes one off its count and leaves the other buffers in use, the
  -- kernel's view, the disk and the validity of the cache.
  pub brelse-Released : Released dev p c (brelse p c)
  unfolding brelse
  brelse-Released = record {
    same = record {
      valid = record {
        one_dev = λ q. ground (arith, v.one_dev q, v.one_dev p);
        found = λ q h. ground (arith, v.found q, hit-brelse (c.buf q).blockno);
        coherent = λ q. ground (arith, v.coherent q, v.coherent p);
      };
      image = refl;
      written = refl;
      view_eq = λ n h. view-brelse n h;
    };
    others = λ q m ne k. record {
      key = ground (arith, k.key);
      loaded = ground (arith, k.loaded);
      in_use = ground (arith, k.in_use);
    };
    listed_kept = λ q h. ground (arith, listed-front q p c.lru h);
    clean = λ q d. ground arith;
    ref = ground arith;
    refs = λ q ne. ground arith;
  }
