-- ===== src/Storage/Virtio/Request.antt =====
-- kernel/virtio_disk.c: a request to a quiet disk is what the block cache takes it for.
use riscvos.Common.{
  ℕ, ◌+◌, ◌-◌, ◌/◌, ◌%◌, ◌^◌, ◌<◌, ◌≡◌, refl, Bool, true, false, Option, none, some, arith, not,
  if_else, ap, sym, subst, ◌∙◌, if◌then◌else◌, update,
}
use riscvos.Common.Outcome.{Outcome, done, panic, hang}
use riscvos.Storage.Bio.{Bcache, virtio_read, virtio_write}
use riscvos.Storage.Virtio.{
  Disk, Machine, num, set3, find_free, alloc3_desc, free_chain, submit, complete, complete_from,
  virtio_disk_intr, wait_done, virtio_disk_rw, set_flag,
}
use riscvos.Storage.Virtio.Device.{
  IsQuiet, head, IsChain, answered, fetched, kept, Serves, SameCache,
}

-- An answer to the chain of buffer `b`.
abbrev taken_back : ℕ → ℕ → Machine → Machine
taken_back id b m = record {
  disk = record (free_chain id m.disk) {
    used_idx = (m.disk.used_idx + 1) % 2 ^ 16;
    info = update m.disk.info id none;
  };
  cache = set_flag b false m.cache;
}

complete-taken_back :
    (m : Machine) (id b : ℕ)
    → m.disk.used_ring (m.disk.used_idx % num) ≡ id
    → m.disk.info id ≡ some b
    → complete m ≡ taken_back id b m
unfolding complete
complete-taken_back m id b e e' =
    let own : m.disk.info (m.disk.used_ring (m.disk.used_idx % num)) ≡ some b =
      ap m.disk.info e ∙ e' in
    subst (λ j. complete m ≡ taken_back j b m) e (rw (own, complete) refl)

-- Three descriptors in a row that were taken and are given back.
set3-set3 :
    (f : ℕ → Bool)
    → ((i : ℕ) → i < num → f i ≡ true)
    → (i : ℕ) → i < num
    → set3 0 true (set3 0 false f) i ≡ true
set3-set3 f h i lt = ground (arith, h i lt)

module _ (device : Machine → Machine) (serves : Serves device) (p : ℕ) (m : Machine)
    (idle : IsQuiet m.disk) (small : (m.cache.buf p).blockno < 2 ^ 31) where
  first_free : find_free m.disk.free num 0 ≡ some 0
  unfolding find_free
  first_free = ground (arith, idle.free 0 (omega arith))

  alloc3-first : alloc3_desc m.disk ≡ (some 0, record m.disk { free = set3 0 false m.disk.free })
  unfolding alloc3_desc
  alloc3-first = rw (first_free, alloc3_desc) refl

  abbrev taken : Machine
  taken = record m { disk = record m.disk { free = set3 0 false m.disk.free } }

  submit-head : (w : Bool) → head (submit p w 0 taken).disk ≡ 0
  unfolding submit
  submit-head w =
      let same : m.disk.avail_idx % num
          ≡ ((m.disk.avail_idx + 1) % 2 ^ 16 + (2 ^ 16 - 1)) % 2 ^ 16 % num =
        omega arith in
      ground (arith, same)

  submit-IsChain :
      (w : Bool)
      → IsChain p (if w then 1 else 3) (head (submit p w 0 taken).disk) (submit p w 0 taken).disk
  unfolding submit
  submit-IsChain w =
      subst (λ i. IsChain p (if w then 1 else 3) i (submit p w 0 taken).disk) (sym (submit-head w))
        (record { first = (refl, refl); second = (refl, refl); third = (refl, refl) })

  abbrev reply : Bcache → Bool → Machine
  reply c w = record { disk = answered 0 (submit p w 0 taken).disk; cache = c }

  -- The driver sees one answer, which is to chain 0.
  reply-seen : (c : Bcache) (w : Bool) → virtio_disk_intr (reply c w) ≡ complete (reply c w)
  unfolding virtio_disk_intr complete_from submit
  reply-seen c w =
      let one : ((m.disk.device_idx + 1) % 2 ^ 16 + (2 ^ 16 - m.disk.used_idx)) % 2 ^ 16 ≡ 1 =
        omega (arith, idle.seen, idle.small) in
      rw one refl

  reply-id :
      (c : Bcache) (w : Bool) → (reply c w).disk.used_ring ((reply c w).disk.used_idx % num) ≡ 0
  unfolding submit
  reply-id c w = ground (arith, idle.seen)

  reply-info : (c : Bcache) (w : Bool) → (reply c w).disk.info 0 ≡ some p
  unfolding submit
  reply-info c w = refl

  completed : (c : Bcache) (w : Bool) → virtio_disk_intr (reply c w) ≡ taken_back 0 p (reply c w)
  completed c w =
      reply-seen c w ∙ complete-taken_back (reply c w) 0 p (reply-id c w) (reply-info c w)

  taken_back-IsQuiet : (c : Bcache) (w : Bool) → IsQuiet (taken_back 0 p (reply c w)).disk
  unfolding submit free_chain
  taken_back-IsQuiet c w = record {
    init = idle.init;
    free = λ i h. set3-set3 m.disk.free idle.free i h;
    seen = ap (λ k. (k + 1) % 2 ^ 16) idle.seen;
    small = omega arith;
  }

  -- The wait for the request ends with its first look.
  waited :
      (c : Bcache) (w : Bool)
      → (c.buf p).disk ≡ true
      → wait_done p (reply c w) ≡ done (taken_back 0 p (reply c w))
  unfolding wait_done
  waited c w busy =
      let off : ((taken_back 0 p (reply c w)).cache.buf p).disk ≡ false = ground arith in
      rw (busy, completed c w, off) refl

  -- The request up to the wait.
  begun : (w : Bool) → virtio_disk_rw device p w m ≡ wait_done p (device (submit p w 0 taken))
  unfolding virtio_disk_rw alloc3_desc
  begun w =
      if_else (not m.disk.init) (panic "virtio_disk_rw: not initialized") _ (ap not idle.init)
      ∙ ap {A = Option ℕ × Disk}
          (λ a. elim a.0 as (λ _. Outcome Machine) [
            | none ↦ hang "virtio_disk_rw"
            | some i ↦ wait_done p (device (submit p w i (record m { disk = a.1 })))
          ])
          alloc3-first

  sector-block : (w : Bool) → (submit p w 0 taken).disk.sector / 2 ≡ (m.cache.buf p).blockno
  unfolding submit
  sector-block w = omega (arith, small)

  submit-cache : (w : Bool) → (submit p w 0 taken).cache ≡ set_flag p true m.cache
  unfolding submit
  submit-cache w = refl

  submit-kind : (w : Bool) → (submit p w 0 taken).disk.kind ≡ (if w then 1 else 0)
  unfolding submit
  submit-kind w = refl

  -- What the device leaves, for what it does with the cache.
  served-reply :
      (w : Bool) (act : ℕ → Bcache → Bcache)
      → device (submit p w 0 taken) ≡ record {
        disk = answered (head (submit p w 0 taken).disk) (submit p w 0 taken).disk;
        cache = act ((submit p w 0 taken).disk.sector / 2) (submit p w 0 taken).cache;
      }
      → device (submit p w 0 taken)
        ≡ reply (act (m.cache.buf p).blockno (set_flag p true m.cache)) w
  served-reply w act e =
      let d = submit p w 0 taken in
      e
      ∙ ap {A = ℕ} {B = Machine}
          (λ i. record { disk = answered i d.disk; cache = act (d.disk.sector / 2) d.cache })
          (submit-head w)
      ∙ ap {A = ℕ} {B = Machine} (λ n. record { disk = answered 0 d.disk; cache = act n d.cache })
          (sector-block w)
      ∙ ap {A = Bcache} {B = Machine}
          (λ c. record { disk = answered 0 d.disk; cache = act (m.cache.buf p).blockno c })
          (submit-cache w)

  read_served :
      virtio_disk_rw device p false m
      ≡ done (
          taken_back 0 p
            (reply (fetched p (m.cache.buf p).blockno (set_flag p true m.cache)) false))
  read_served =
      begun false
      ∙ ap (wait_done p) (
          served-reply false (fetched p)
            (serves.reads (submit p false 0 taken) p (submit-IsChain false) (submit-kind false)))
      ∙ waited (fetched p (m.cache.buf p).blockno (set_flag p true m.cache)) false (ground arith)

  write_served :
      virtio_disk_rw device p true m
      ≡ done
          (taken_back 0 p (reply (kept p (m.cache.buf p).blockno (set_flag p true m.cache)) true))
  write_served =
      begun true
      ∙ ap (wait_done p) (
          served-reply true (kept p)
            (serves.writes (submit p true 0 taken) p (submit-IsChain true) (submit-kind true)))
      ∙ waited (kept p (m.cache.buf p).blockno (set_flag p true m.cache)) true (ground arith)

  read-SameCache :
      SameCache
        (set_flag p false (fetched p (m.cache.buf p).blockno (set_flag p true m.cache)))
        (virtio_read p m.cache)
  unfolding virtio_read
  read-SameCache = record { buf = λ q. ground arith; lru = refl; image = refl; written = refl }

  write-SameCache :
      SameCache
        (set_flag p false (kept p (m.cache.buf p).blockno (set_flag p true m.cache)))
        (virtio_write p m.cache)
  unfolding virtio_write
  write-SameCache = record {
    buf = λ q. ground arith;
    lru = refl;
    image = refl;
    written = ground arith;
  }

-- A request that comes to its end: the disk is quiet again and the cache is `d`.
abbrev pub Finishes : Outcome Machine → Bcache → Type 0
Finishes o d = (m' : Machine) × (o ≡ done m') × IsQuiet m'.disk × SameCache m'.cache d

-- On a quiet disk whose device serves the chains that it is given, `virtio_disk_rw` returns for reads and for writes of a block below 2^31, does
-- to the buffers and the device what the block cache takes it for, and leaves the disk quiet.
pub virtio_disk_rw-IsQuiet :
    (device : Machine → Machine) (p : ℕ) (m : Machine)
    → Serves device
    → IsQuiet m.disk
    → (m.cache.buf p).blockno < 2 ^ 31
    → Finishes (virtio_disk_rw device p false m) (virtio_read p m.cache)
      × Finishes (virtio_disk_rw device p true m) (virtio_write p m.cache)
virtio_disk_rw-IsQuiet device p m serves idle small = (
  (
    taken_back 0 p (
        reply device serves p m idle small
          (fetched p (m.cache.buf p).blockno (set_flag p true m.cache)) false),
    read_served device serves p m idle small,
    taken_back-IsQuiet device serves p m idle small
        (fetched p (m.cache.buf p).blockno (set_flag p true m.cache)) false,
    read-SameCache device serves p m idle small,
  ),
  (
    taken_back 0 p (
        reply device serves p m idle small
          (kept p (m.cache.buf p).blockno (set_flag p true m.cache)) true),
    write_served device serves p m idle small,
    taken_back-IsQuiet device serves p m idle small
        (kept p (m.cache.buf p).blockno (set_flag p true m.cache)) true,
    write-SameCache device serves p m idle small,
  ),
)
