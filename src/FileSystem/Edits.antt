-- ===== src/FileSystem/Edits.antt =====
-- kernel/fs.c: a block that is read, changed in its buffer, logged and given back, as what the kernel then sees.
use riscvos.Common.{
  ℕ, ◌≡◌, refl, ◌≢◌, ◌∙◌, sym, ap, subst, fun_ext, Bool, true, false, not, arith, update,
}
use riscvos.Common.Outcome.{Ensures, returns, panics, Ensures->>=, Ensures-when, Ensures-if}
use riscvos.Common.Word.{slt, sub32}
use riscvos.Storage.Bio.{Block, Buf, Bcache, set_bytes}
use riscvos.Storage.Bio.Invariant.{IsValid, view, replace-IsValid}
use riscvos.Storage.Bio.View.{replaced, replaced-view}
use riscvos.Storage.Bio.Ops.{Read, bread-Read, view-loaded}
use riscvos.Storage.Bio.Write.{brelse-Released}
use riscvos.Storage.Log.{Store, log_write, log_block, release_log}
use riscvos.Storage.Log.Phase.{IsOpen, bread-Settles, acquire_log-locked, log_block-IsOpen}
use riscvos.FileSystem.{Fs, get_block, release, log_buffer, contents, set_contents}

-- A valid cache, and one open transaction.
pub record IsSound (dev : ℕ) (s : Fs) : Type 0 where
  pub valid : IsValid dev s.store.cache
  pub log : IsOpen s.store.log

-- Block `n` as the kernel sees it.
abbrev pub seen : ℕ → Fs → ℕ → Block
seen dev s n = view dev s.store.cache n

-- The same blocks, superblock and inodes.
pub record IsSame (dev : ℕ) (s t : Fs) : Type 0 where
  pub sound : IsSound dev t
  pub blocks : (n : ℕ) → n ≢ 0 → seen dev t n ≡ seen dev s n
  pub sb : t.sb ≡ s.sb
  pub inode : t.inode ≡ s.inode

-- Block `n` is now `x`, and nothing else has changed.
pub record Edited (dev n : ℕ) (x : Block) (s t : Fs) : Type 0 where
  pub sound : IsSound dev t
  pub self : seen dev t n ≡ x
  pub others : (m : ℕ) → m ≢ 0 → m ≢ n → seen dev t m ≡ seen dev s m
  pub sb : t.sb ≡ s.sb
  pub inode : t.inode ≡ s.inode

-- A buffer that a `bread` of the file system gave.
pub record Looked (dev n : ℕ) (s : Fs) (r : ℕ × Fs) : Type 0 where
  pub read : Read dev n s.store.cache r.0 r.1.store.cache
  pub log : r.1.store.log ≡ s.store.log
  pub sb : r.1.sb ≡ s.sb
  pub inode : r.1.inode ≡ s.inode

module _ {dev : ℕ} {s : Fs} (ok : IsSound dev s) where
  pub get_block-Looked : (d n : ℕ) → d ≡ dev → n ≢ 0 → Ensures (Looked dev n s) (get_block d n s)
  get_block-Looked d n e h =
      subst (λ x. Ensures (Looked dev n s) (get_block x n s)) (sym e)
        (Ensures->>=
          (Ensures-when (bread-Settles dev n s.store.cache) (λ r _ z. bread-Read ok.valid h z))
          (λ r rd. returns (record { read = rd; log = refl; sb = refl; inode = refl })))

module _ {dev n : ℕ} {s : Fs} {r : ℕ × Fs} (ok : IsSound dev s) (k : Looked dev n s r) where
  pub Looked-IsSound : IsSound dev r.1
  Looked-IsSound = record { valid = k.read.same.valid; log = subst IsOpen (sym k.log) ok.log }

  pub Looked-contents : contents r.0 r.1 ≡ seen dev s n
  Looked-contents = k.read.bytes

  pub release-IsSame : IsSame dev s (release r.0 r.1)
  release-IsSame =
      let rel = brelse-Released k.read.same.valid r.0 in
      record {
        sound = record { valid = rel.same.valid; log = subst IsOpen (sym k.log) ok.log };
        blocks = λ m h. rel.same.view_eq m h ∙ k.read.same.view_eq m h;
        sb = k.sb;
        inode = k.inode;
      }

-- `log_write` marks the buffer.
abbrev marked : ℕ → Bcache → Bcache
marked p c = record c { buf = update c.buf p (record (c.buf p) { disk = true }) }

negated_test : (b : Bool) → not b ≡ false → b ≡ true
negated_test true h = refl
negated_test false h = cc

log_write-marked :
    (p : ℕ) (s : Store)
    → IsOpen s.log
    → Ensures (λ t. IsOpen t.log × (t.cache ≡ marked p s.cache)) (log_write p s)
unfolding log_write
log_write-marked p s o = Ensures->>= (acquire_log-locked s.log o.lock) (λ l e.
    Ensures-if (not (slt l.n (sub32 l.size 1))) (λ _. panics)
      (λ room.
        Ensures-if (slt l.outstanding 1) (λ _. panics)
          (λ in_op.
            let fits : slt s.log.n (sub32 s.log.size 1) ≡ true =
              negated_test _ (subst (λ m. not (slt m.n (sub32 m.size 1)) ≡ false) e room) in
            returns (
              subst (λ m. IsOpen (release_log (log_block m (s.cache.buf p).blockno))) (sym e)
                  (log_block-IsOpen s.log (s.cache.buf p).blockno fits o),
              refl,
            ))))

-- A buffer that is changed and marked for the log.
abbrev dirty : Block → Buf → Buf
dirty x b = record b { disk = true; bytes = x }

module _ {dev : ℕ} {c : Bcache} (v : IsValid dev c) (p n : ℕ) (h : n ≢ 0) where
  abbrev dirtied : Block → Bcache
  dirtied x = replaced v p (dirty x (c.buf p)) c.written

  marked-eq : (x : Block) → marked p (set_bytes p x c) ≡ dirtied x
  unfolding set_bytes
  marked-eq x = ap (λ f. record c { buf = f }) (fun_ext (λ q. ground arith))

  dirtied-IsValid : (x : Block) → IsValid dev (dirtied x)
  dirtied-IsValid x =
      replace-IsValid v p (dirty x (c.buf p)) c.written (v.one_dev p) refl (λ _ z. cc)
        (λ q _ l d. v.coherent q l d)

  dirtied_self :
      (x : Block) → (c.buf p).blockno ≡ n → (c.buf p).valid ≡ true → view dev (dirtied x) n ≡ x
  dirtied_self x key l =
      view-loaded (dirtied-IsValid x) p n h (ground (arith, key)) (ground (arith, l)) ∙ ground arith

  dirtied_others :
      (x : Block)
      → (c.buf p).blockno ≡ n
      → (m : ℕ) → m ≢ 0
      → m ≢ n
      → view dev (dirtied x) m ≡ view dev c m
  dirtied_others x key m hm ne =
      replaced-view v p (dirty x (c.buf p)) c.written refl refl m hm (ground (arith, key)) refl

-- A buffer that was read is changed, logged and given back.
pub log_buffer-Edited :
    {dev n : ℕ} {s : Fs} {r : ℕ × Fs} (ok : IsSound dev s) (h : n ≢ 0) (x : Block)
    → Looked dev n s r
    → Ensures (λ t. Edited dev n x s (release r.0 t)) (log_buffer r.0 (set_contents r.0 x r.1))
log_buffer-Edited {dev} {n} {s} {r} ok h x k =
    Ensures->>=
      (log_write-marked r.0 (set_contents r.0 x r.1).store (subst IsOpen (sym k.log) ok.log))
      (λ t (o, e).
        let c = r.1.store.cache in
        let v = k.read.same.valid in
        let e' : t.cache ≡ dirtied v r.0 n h x = e ∙ marked-eq v r.0 n h x in
        let v' : IsValid dev t.cache = subst (IsValid dev) (sym e') (dirtied-IsValid v r.0 n h x) in
        let rel = brelse-Released v' r.0 in
        returns (record {
          sound = record { valid = rel.same.valid; log = o };
          self =
              rel.same.view_eq n h
              ∙ ap (λ d. view dev d n) e'
              ∙ dirtied_self v r.0 n h x k.read.key k.read.loaded;
          others = λ m hm ne.
              rel.same.view_eq m hm
              ∙ ap (λ d. view dev d m) e'
              ∙ dirtied_others v r.0 n h x k.read.key m hm ne
              ∙ k.read.same.view_eq m hm;
          sb = k.sb;
          inode = k.inode;
        }))

pub IsSame-refl : {dev : ℕ} {s : Fs} → IsSound dev s → IsSame dev s s
IsSame-refl ok = record { sound = ok; blocks = λ n h. refl; sb = refl; inode = refl }

pub IsSame-trans : {dev : ℕ} {s t u : Fs} → IsSame dev s t → IsSame dev t u → IsSame dev s u
IsSame-trans p q = record {
  sound = q.sound;
  blocks = λ n h. q.blocks n h ∙ p.blocks n h;
  sb = q.sb ∙ p.sb;
  inode = q.inode ∙ p.inode;
}

pub IsSame-Edited :
    {dev n : ℕ} {x : Block} {s t u : Fs} → IsSame dev s t → Edited dev n x t u → Edited dev n x s u
IsSame-Edited p e = record {
  sound = e.sound;
  self = e.self;
  others = λ m h ne. e.others m h ne ∙ p.blocks m h;
  sb = e.sb ∙ p.sb;
  inode = e.inode ∙ p.inode;
}
