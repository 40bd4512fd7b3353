-- ===== src/Storage/Virtio/Device.antt =====
-- kernel/virtio_disk.c: what the driver leaves to the device, and a disk without a request.
use riscvos.Common.{ℕ, ◌+◌, ◌-◌, ◌/◌, ◌%◌, ◌^◌, ◌<◌, ◌≡◌, true, ◌∷◌, update}
use riscvos.Storage.Bio.{Bcache, disk_block}
use riscvos.Storage.Virtio.{request, contents, status, Disk, Machine, num}

-- No request is under way.
pub record IsQuiet (d : Disk) : Type 0 where
  pub init : d.init ≡ true
  pub free : (i : ℕ) → i < num → d.free i ≡ true
  pub seen : d.device_idx ≡ d.used_idx
  pub small : d.used_idx < 2 ^ 16

-- The chain that the driver made available last.
abbrev pub head : Disk → ℕ
head d = d.ring ((d.avail_idx + (2 ^ 16 - 1)) % 2 ^ 16 % num)

-- The chain from descriptor `i`: the request, the bytes of buffer `p` with these flags, and the status.
pub record IsChain (p flags i : ℕ) (d : Disk) : Type 0 where
  pub first : ((d.desc i).addr ≡ request) × ((d.desc i).flags ≡ 1)
  pub second :
      ((d.desc (d.desc i).next).addr ≡ contents p) × ((d.desc (d.desc i).next).flags ≡ flags)
  pub third :
      ((d.desc (d.desc (d.desc i).next).next).addr ≡ status)
      × ((d.desc (d.desc (d.desc i).next).next).flags ≡ 2)

-- The device tells the driver that it is done with chain `i`.
abbrev pub answered : ℕ → Disk → Disk
answered i d = record d {
  used_ring = update d.used_ring (d.device_idx % num) i;
  device_idx = (d.device_idx + 1) % 2 ^ 16;
}

abbrev pub fetched : ℕ → ℕ → Bcache → Bcache
fetched p n c = record c { buf = update c.buf p (record (c.buf p) { bytes = disk_block c n }) }

abbrev pub kept : ℕ → ℕ → Bcache → Bcache
kept p n c = record c { written = (n, (c.buf p).bytes) ∷ c.written }

-- A block device: it serves the request of the last chain, which it finds through the descriptors, and answers.
pub record Serves (device : Machine → Machine) : Type 0 where
  pub reads :
      (m : Machine) (p : ℕ)
      → IsChain p 3 (head m.disk) m.disk
      → m.disk.kind ≡ 0
      → device m ≡ record {
        disk = answered (head m.disk) m.disk;
        cache = fetched p (m.disk.sector / 2) m.cache;
      }
  pub writes :
      (m : Machine) (p : ℕ)
      → IsChain p 1 (head m.disk) m.disk
      → m.disk.kind ≡ 1
      → device m ≡ record {
        disk = answered (head m.disk) m.disk;
        cache = kept p (m.disk.sector / 2) m.cache;
      }

-- Two caches with the same buffers over the same device.
pub record SameCache (c d : Bcache) : Type 0 where
  pub buf : (q : ℕ) → c.buf q ≡ d.buf q
  pub lru : c.lru ≡ d.lru
  pub image : c.image ≡ d.image
  pub written : c.written ≡ d.written
