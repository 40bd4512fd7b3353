-- ===== src/Storage/Virtio/Handshake.antt =====
-- kernel/virtio_disk.c: `virtio_disk_init`, which agrees with the device on the features and the queue. The device is a
-- parameter: what a read of a register gives after the writes so far, of which the newest stands first.
use riscvos.Common.{ℕ, ◌+◌, ◌*◌, ◌/◌, ◌%◌, ◌^◌, not, List, [], ◌∷◌, ◌==◌, ltb, if◌then◌else◌}
use riscvos.Common.Outcome.{Outcome, done, panic, ◌>>=◌}
use riscvos.Storage.Virtio.{Disk, num, virtio_disk_init}

abbrev pub Writes : Type 0
Writes = List (ℕ × ℕ)

abbrev pub Registers : Type 0
Registers = Writes → ℕ → ℕ

-- The offsets of include/virtio.h.
abbrev pub mmio_device_features : ℕ
mmio_device_features = 16

abbrev pub mmio_driver_features : ℕ
mmio_driver_features = 32

abbrev pub mmio_queue_sel : ℕ
mmio_queue_sel = 48

abbrev pub mmio_queue_num_max : ℕ
mmio_queue_num_max = 52

abbrev pub mmio_queue_num : ℕ
mmio_queue_num = 56

abbrev pub mmio_queue_ready : ℕ
mmio_queue_ready = 68

abbrev pub mmio_status : ℕ
mmio_status = 112

-- A register of 32 bits.
abbrev pub reg : Registers → Writes → ℕ → ℕ
reg device w offset = device w offset % 2 ^ 32

-- Resetting the device up to FEATURES_OK.
abbrev pub negotiated : Writes
negotiated =
    (mmio_status, 11)
    ∷ (mmio_driver_features, 0)
    ∷ (mmio_device_features, 0)
    ∷ (mmio_status, 3)
    ∷ (mmio_status, 1)
    ∷ (mmio_status, 0)
    ∷ []

-- The addresses of the descriptors and of both rings, in two halves each.
abbrev pub queue_at : ℕ → Writes → Writes
queue_at pages w =
    (164, (pages + 4096) / 2 ^ 32)
    ∷ (160, (pages + 4096) % 2 ^ 32)
    ∷ (148, (pages + num * 16) / 2 ^ 32)
    ∷ (144, (pages + num * 16) % 2 ^ 32)
    ∷ (132, pages / 2 ^ 32)
    ∷ (128, pages % 2 ^ 32)
    ∷ w

-- `status |= VIRTIO_CONFIG_S_DRIVER_OK`.
abbrev pub driver_ok : ℕ → ℕ
driver_ok status = if status / 4 % 2 == 1 then status else status + 4

-- What `virtio_disk_init` writes to the device; `pages` is the address of `disk.pages`.
unfoldable pub handshake : Registers → ℕ → Outcome Writes
handshake device pages =
    let status = reg device negotiated mmio_status in
    let w = (mmio_queue_sel, 0) ∷ negotiated in
    let max = reg device w mmio_queue_num_max in
    if not (status / 8 % 2 == 1)
    then panic "virtio disk FEATURES_OK unset"
    else (if not (reg device w mmio_queue_ready == 0)
        then panic "virtio disk should not be ready"
        else (if max == 0
            then panic "virtio disk has no queue 0"
            else (if ltb max num
                then panic "virtio disk max queue too short"
                else done (
                    (mmio_status, driver_ok status)
                    ∷ (mmio_queue_ready, 1)
                    ∷ queue_at pages ((mmio_queue_num, num) ∷ w)))))

unfoldable pub start_disk : Registers → ℕ → Disk → Outcome (Disk × Writes)
unfolding handshake
start_disk device pages d =
    if d.init then done (d, []) else handshake device pages >>= λ w. done (virtio_disk_init d, w)
