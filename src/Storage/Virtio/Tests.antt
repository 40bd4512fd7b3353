-- ===== src/Storage/Virtio/Tests.antt =====
-- The disk driver over a concrete device.
use riscvos.Common.{◌/◌, ◌^◌, ◌<◌, refl, true, false, none, [], arith, if◌then◌else◌, ◌==◌}
use riscvos.Storage.Bio.{boot, binit, virtio_read, virtio_write}
use riscvos.Storage.Virtio.{
  Target, request, contents, status, null, Disk, Machine, virtio_disk_init, virtio_disk_rw,
}
use riscvos.Storage.Virtio.Device.{IsQuiet, head, answered, fetched, kept, Serves}
use riscvos.Storage.Virtio.Request.{Finishes, virtio_disk_rw-IsQuiet}

-- A device that looks for the bytes through the second descriptor.
abbrev serve_target : Target → Machine → Machine
serve_target (contents p) m = record {
  disk = answered (head m.disk) m.disk;
  cache =
      if m.disk.kind == 0
      then fetched p (m.disk.sector / 2) m.cache
      else kept p (m.disk.sector / 2) m.cache;
}
serve_target null m = m
serve_target request m = m
serve_target status m = m

abbrev block_device : Machine → Machine
block_device m = serve_target (m.disk.desc (m.disk.desc (head m.disk)).next).addr m

block_device-Serves : Serves block_device
block_device-Serves = record {
  reads = λ m p chain k. rw (chain.second.0, k) refl;
  writes = λ m p chain k. rw (chain.second.0, k) refl;
}

-- The memory of the driver before it runs.
abbrev cleared : Disk
cleared = record {
  desc = λ i. record { addr = null; len = 0; flags = 0; next = 0 };
  ring = λ i. 0;
  avail_idx = 0;
  used_ring = λ i. 0;
  device_idx = 0;
  free = λ i. false;
  used_idx = 0;
  info = λ i. none;
  init = false;
  kind = 0;
  sector = 0;
}

abbrev machine : Machine
machine = record { disk = virtio_disk_init cleared; cache = boot (λ n i. 0) [] }

machine-IsQuiet : IsQuiet machine.disk
unfolding virtio_disk_init
machine-IsQuiet = record {
  init = refl;
  free = λ i h. ground arith;
  seen = refl;
  small = omega arith;
}

machine_block : (machine.cache.buf 0).blockno < 2 ^ 31
unfolding boot binit
machine_block = ground arith

virtio_disk_rw-IsQuiet_example :
    Finishes (virtio_disk_rw block_device 0 false machine) (virtio_read 0 machine.cache)
    × Finishes (virtio_disk_rw block_device 0 true machine) (virtio_write 0 machine.cache)
virtio_disk_rw-IsQuiet_example =
    virtio_disk_rw-IsQuiet block_device 0 machine block_device-Serves machine-IsQuiet machine_block
