-- ===== src/System/Boot/Ready.antt =====
-- kernel/main.c: the state in which the scheduler starts.
use riscvos.Common.{ℕ, ◌/◌, ◌%◌, ◌<◌, ◌≡◌, Option, none, some, [], ◌∷◌, ◌==◌, if◌then◌else◌}
use riscvos.Storage.Bio.{Block, binit}
use riscvos.Storage.Virtio.{Disk}
use riscvos.Storage.Virtio.Device.{IsQuiet}
use riscvos.Storage.Virtio.Handshake.{Writes, mmio_status, driver_ok}
use riscvos.Process.Create.{Link}
use riscvos.Process.Create.First.{OnlyInit}
use riscvos.FileSystem.{Fs}
use riscvos.FileSystem.File.{nfile}
use riscvos.Mkfs.Mount.{IsReady}
use riscvos.System.{Kernel}
use riscvos.System.Boot.{Started, clear_bss}

-- The last value that was written to a register.
pub last_written : ℕ → Writes → Option ℕ
last_written r [] = none
last_written r ((k, v) ∷ w) = if k == r then some v else last_written r w

-- The device accepted the features, and was told last that the driver is ready.
pub record IsDriven (w : Writes) : Type 0 where
  pub status : ℕ
  pub told : last_written mmio_status w ≡ some status
  pub features_ok : status / 8 % 2 ≡ 1
  pub driver_ok : status / 4 % 2 ≡ 1

-- The file system that the start mounts.
abbrev zero_fs : (ℕ → Block) → Fs
unfolding clear_bss
zero_fs image =
    (clear_bss image
      (record { pmm = record { freelist = 0; next = λ a. 0 }; word = λ a. 0 })).files.fs

abbrev before_mount : Fs → Fs
before_mount fs = record fs { store = record fs.store { cache = binit fs.store.cache } }

-- What `start_storage` leaves.
record Stored (k : Kernel) (r : (Disk × Writes) × Kernel) : Type 0 where
  disk : IsQuiet r.0.0
  driven : IsDriven r.0.1
  mounted : IsReady r.1.files.fs
  closed : (i : ℕ) → i < nfile → (r.1.files.file i).ref ≡ 0
  table : r.1.table ≡ k.table

-- The kernel at the call of `scheduler`: the image is mounted and the log idle, no file is open, no process runs and none but the first is
-- ready to run; the driver has no request under way, and the device accepted it.
pub record Booted (l : Link) (m : Started) : Type 0 where
  pub mounted : IsReady m.kernel.files.fs
  pub closed : (i : ℕ) → i < nfile → (m.kernel.files.file i).ref ≡ 0
  pub processes : OnlyInit l m.kernel.table
  pub disk : IsQuiet m.disk
  pub driven : IsDriven m.writes
