-- ===== src/Storage/Bio.antt =====
-- kernel/bio.c and `struct buf` of include/buf.h: the cache of disk blocks, and the device below it.
--
-- A `struct buf *` is the index of its buffer in `bcache.buf`. The list that the `prev` and `next`
-- fields thread through the buffers is `lru`, from `head.next` to `head.prev`. The device is the
-- image that it held at power-on and the write requests that it has completed, newest first.
pub mod Lookup
pub mod Invariant
pub mod View
pub mod Ops
pub mod Write
pub mod Boot
pub mod Progress
use riscvos.Common.{
  ℕ, zero, suc, ◌+◌, ◌<◌, ◌≡◌, Bool, true, false, not, ◌&&◌, Option, none, some, List, [], ◌∷◌,
  ◌==◌, ltb, if◌then◌else◌, update,
}
use riscvos.Common.Outcome.{Outcome, done, panic, ◌>>=◌}
use riscvos.Common.Word.{inc32, dec32}
use Prim.Native.Nat.{◌%◌, ◌^◌, ◌-◌}

-- The bytes of a block, by offset.
abbrev pub Block : Type 0
Block = ℕ → ℕ

abbrev pub nbuf : ℕ
nbuf = 30

pub record Buf : Type 0 where
  pub valid : Bool
  pub disk : Bool
  pub dev : ℕ
  pub blockno : ℕ
  pub refcnt : ℕ
  pub bytes : Block

pub record Bcache : Type 0 where
  pub buf : ℕ → Buf
  pub lru : List ℕ
  pub image : ℕ → Block
  pub written : List (ℕ × Block)

-- What the device holds for block `n`: the newest completed write, or the image.
unfoldable pub read_block : (ℕ → Block) → List (ℕ × Block) → ℕ → Block
read_block image [] n = image n
read_block image ((k, v) ∷ w) n = if k == n then v else read_block image w n

abbrev pub disk_block : Bcache → ℕ → Block
disk_block c n = read_block c.image c.written n

-- `virtio_disk_rw` as bio.c uses it: the request is complete when it returns, and `disk` is 0 then.
unfoldable pub virtio_read : ℕ → Bcache → Bcache
virtio_read p c = record c {
  buf = update c.buf p (record (c.buf p) { disk = false; bytes = disk_block c (c.buf p).blockno });
}

unfoldable pub virtio_write : ℕ → Bcache → Bcache
virtio_write p c = record c {
  buf = update c.buf p (record (c.buf p) { disk = false });
  written = ((c.buf p).blockno, (c.buf p).bytes) ∷ c.written;
}

-- The buffers 29, 28, …, 0: each is put in front of those before it.
unfoldable pub down_from : ℕ → List ℕ
down_from zero = []
down_from (suc n) = n ∷ down_from n

abbrev reset : Buf → Buf
reset b = record b { valid = false; disk = false; refcnt = 0 }

-- `binit`, over the array as it stands: the loop resets three fields of every buffer.
unfoldable pub binit : Bcache → Bcache
unfolding down_from
binit c = record c {
  buf = λ p. if ltb p nbuf then reset (c.buf p) else c.buf p;
  lru = down_from nbuf;
}

abbrev pub matches : ℕ → ℕ → Buf → Bool
matches dev n b = b.dev == dev && b.blockno == n

-- The first loop of `bget`: the first buffer from `head.next` on that caches the block.
unfoldable pub hit : ℕ → ℕ → (ℕ → Buf) → List ℕ → Option ℕ
hit dev n f [] = none
hit dev n f (p ∷ ps) = if matches dev n (f p) then some p else hit dev n f ps

abbrev pub is_free : Buf → Bool
is_free b = b.refcnt == 0 && not b.disk

-- The second loop: the first free and clean buffer from `head.prev` back.
unfoldable pub victim : (ℕ → Buf) → List ℕ → Option ℕ
victim f [] = none
victim f (p ∷ ps) = elim (victim f ps) [
  | some q ↦ some q
  | none ↦ if is_free (f p) then some p else none
]

unfoldable pub bget : ℕ → ℕ → Bcache → Outcome (ℕ × Bcache)
bget dev n c = elim (hit dev n c.buf c.lru) [
  | some p ↦
      done (
        p,
        record c { buf = update c.buf p (record (c.buf p) { refcnt = inc32 (c.buf p).refcnt }) },
      )
  | none ↦ elim (victim c.buf c.lru) [
    | some p ↦ done (
      p,
      record c {
        buf =
            update c.buf p (record (c.buf p) { dev = dev; blockno = n; valid = false; refcnt = 1 });
      },
    )
    | none ↦ panic "bget: no buffers"
  ]
]

-- The tail of `bread`, after `bget`.
unfoldable pub fill : ℕ → Bcache → Bcache
unfolding virtio_read
fill p c =
    if (c.buf p).valid
    then c
    else (let d = virtio_read p c in
        record d { buf = update d.buf p (record (d.buf p) { valid = true; disk = false }) })

unfoldable pub bread : ℕ → ℕ → Bcache → Outcome (ℕ × Bcache)
unfolding bget fill
bread dev n c = bget dev n c >>= λ r. done (r.0, fill r.0 r.1)

unfoldable pub bwrite : ℕ → Bcache → Bcache
unfolding virtio_write
bwrite p c = virtio_write p c

-- Unlinking a buffer from the list.
unfoldable pub unlink : ℕ → List ℕ → List ℕ
unlink p [] = []
unlink p (q ∷ qs) = if q == p then qs else q ∷ unlink p qs

unfoldable pub brelse : ℕ → Bcache → Bcache
unfolding unlink
brelse p c =
    let r = dec32 (c.buf p).refcnt in
    record c {
      buf = update c.buf p (record (c.buf p) { refcnt = r });
      lru = if r == 0 then p ∷ unlink p c.lru else c.lru;
    }

-- `bp->data[…] = …` through a pointer.
unfoldable pub set_bytes : ℕ → Block → Bcache → Bcache
set_bytes p v c = record c { buf = update c.buf p (record (c.buf p) { bytes = v }) }

-- The cache after `binit` on zeroed memory, over a device with some contents.
unfoldable pub boot : (ℕ → Block) → List (ℕ × Block) → Bcache
unfolding binit
boot image written = binit (record {
  buf =
      λ p. record { valid = false; disk = false; dev = 0; blockno = 0; refcnt = 0; bytes = λ i. 0 };
  lru = [];
  image = image;
  written = written;
})
