-- ===== src/Storage/Virtio.antt =====
-- kernel/virtio_disk.c: requests to the disk through the queue of descriptors.
--
-- What a descriptor points at is a `Target`. The device works in other hardware and is a parameter: it acts once between
-- the notification and the wait, which ends at once or never, since nothing else acts. The handshake of
-- `virtio_disk_init` with the registers of the device is in Virtio/Handshake.
mod Tests
pub mod Device
pub mod Handshake
pub mod Request
use riscvos.Common.{
  ℕ, zero, suc, ◌+◌, ◌-◌, ◌*◌, ◌%◌, ◌^◌, Bool, true, false, not, Option, none, some, ltb,
  if◌then◌else◌, update,
}
use riscvos.Common.Outcome.{Outcome, done, panic, hang}
use riscvos.Storage.Bio.{Buf, Bcache}

pub data Target : Type 0 where
  null : Target
  request : Target
  contents : ℕ → Target
  status : Target

pub record Desc : Type 0 where
  pub addr : Target
  pub len : ℕ
  pub flags : ℕ
  pub next : ℕ

-- `struct disk` with its three rings, and `buf0`. `device_idx` is `used->idx`, which the device writes like `used_ring`.
pub record Disk : Type 0 where
  pub desc : ℕ → Desc
  pub ring : ℕ → ℕ
  pub avail_idx : ℕ
  pub used_ring : ℕ → ℕ
  pub device_idx : ℕ
  pub free : ℕ → Bool
  pub used_idx : ℕ
  pub info : ℕ → Option ℕ
  pub init : Bool
  pub kind : ℕ
  pub sector : ℕ

pub record Machine : Type 0 where
  pub disk : Disk
  pub cache : Bcache

abbrev pub num : ℕ
num = 8

-- Three descriptors in a row, round the end.
abbrev pub set3 : ℕ → Bool → (ℕ → Bool) → ℕ → Bool
set3 i b f = update (update (update f i b) ((i + 1) % num) b) ((i + 2) % num) b

-- What `virtio_disk_init` leaves in memory.
unfoldable pub virtio_disk_init : Disk → Disk
virtio_disk_init d = if d.init then d else (record d {
  desc = λ i. record { addr = null; len = 0; flags = 0; next = 0 };
  ring = λ i. 0;
  avail_idx = 0;
  used_ring = λ i. 0;
  device_idx = 0;
  free = λ i. if ltb i num then true else d.free i;
  init = true;
})

-- The loop of `alloc3_desc`: the first free descriptor.
unfoldable pub find_free : (ℕ → Bool) → ℕ → ℕ → Option ℕ
find_free f zero i = none
find_free f (suc k) i = let rest = find_free f k (i + 1) in if f i then some i else rest

unfoldable pub alloc3_desc : Disk → Option ℕ × Disk
unfolding find_free
alloc3_desc d = elim (find_free d.free num 0) [
  | none ↦ (none, d)
  | some i ↦ (some i, record d { free = set3 i false d.free })
]

unfoldable pub free_chain : ℕ → Disk → Disk
free_chain i d = record d { free = set3 i true d.free }

abbrev pub set_flag : ℕ → Bool → Bcache → Bcache
set_flag p b c = record c { buf = update c.buf p (record (c.buf p) { disk = b }) }

-- The request of buffer `p` in the chain that begins with descriptor `i`, up to the notification.
unfoldable pub submit : ℕ → Bool → ℕ → Machine → Machine
submit p write i m =
    let d = m.disk in
    let i₁ = (i + 1) % num in
    let i₂ = (i + 2) % num in
    let first : Desc = record { addr = request; len = 16; flags = 1; next = i₁ } in
    let second : Desc = record {
      addr = contents p;
      len = 1024;
      flags = if write then 1 else 3;
      next = i₂;
    } in
    let third : Desc = record { addr = status; len = 1; flags = 2; next = 0 } in
    record {
      disk = record d {
        kind = if write then 1 else 0;
        sector = (m.cache.buf p).blockno * 2 % 2 ^ 32;
        desc = update (update (update d.desc i first) i₁ second) i₂ third;
        info = update d.info i (some p);
        ring = update d.ring (d.avail_idx % num) i;
        avail_idx = (d.avail_idx + 1) % 2 ^ 16;
      };
      cache = set_flag p true m.cache;
    }

-- One round of `virtio_disk_intr`.
unfoldable pub complete : Machine → Machine
unfolding free_chain
complete m =
    let d = m.disk in
    let id = d.used_ring (d.used_idx % num) in
    let d' = record (free_chain id d) { used_idx = (d.used_idx + 1) % 2 ^ 16 } in
    elim (d.info id) [
      | none ↦ record m { disk = d' }
      | some b ↦ record {
        disk = record d' { info = update d.info id none };
        cache = set_flag b false m.cache;
      }
    ]

unfoldable pub complete_from : ℕ → Machine → Machine
complete_from zero m = m
complete_from (suc k) m = complete_from k (complete m)

-- The rounds of the loop are what the device has put in its ring since.
unfoldable pub virtio_disk_intr : Machine → Machine
unfolding complete_from
virtio_disk_intr m = complete_from ((m.disk.device_idx + (2 ^ 16 - m.disk.used_idx)) % 2 ^ 16) m

-- `while(b->disk == 1) virtio_disk_intr();`
unfoldable pub wait_done : ℕ → Machine → Outcome Machine
unfolding virtio_disk_intr
wait_done p m =
    let m' = virtio_disk_intr m in
    if (m.cache.buf p).disk
    then (if (m'.cache.buf p).disk then hang "virtio_disk_rw" else done m')
    else done m

unfoldable pub virtio_disk_rw : (Machine → Machine) → ℕ → Bool → Machine → Outcome Machine
unfolding alloc3_desc submit wait_done
virtio_disk_rw device p write m =
    if not m.disk.init
    then panic "virtio_disk_rw: not initialized"
    else (let a = alloc3_desc m.disk in
        elim a.0 [
          | none ↦ hang "virtio_disk_rw"
          | some i ↦ wait_done p (device (submit p write i (record m { disk = a.1 })))
        ])
