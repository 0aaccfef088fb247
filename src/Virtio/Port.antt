-- ===== src/Virtio/Port.antt =====
-- src/virtio.c and src/net.c: the registers of a virtio card in memory.
use kernel_hobby.Base.{ℕ, ◌-◌, ◌*◌, ◌/◌, ◌%◌, ◌^◌, u32}

abbrev pub mmio_magic : ℕ
mmio_magic = 0x000

abbrev pub mmio_version : ℕ
mmio_version = 0x004

abbrev pub mmio_device_id : ℕ
mmio_device_id = 0x008

abbrev pub mmio_vendor_id : ℕ
mmio_vendor_id = 0x00c

abbrev pub mmio_device_feat : ℕ
mmio_device_feat = 0x010

abbrev pub mmio_device_feat_sel : ℕ
mmio_device_feat_sel = 0x014

abbrev pub mmio_driver_feat : ℕ
mmio_driver_feat = 0x020

abbrev pub mmio_driver_feat_sel : ℕ
mmio_driver_feat_sel = 0x024

abbrev pub mmio_queue_sel : ℕ
mmio_queue_sel = 0x030

abbrev pub mmio_queue_num_max : ℕ
mmio_queue_num_max = 0x034

abbrev pub mmio_queue_num : ℕ
mmio_queue_num = 0x038

abbrev pub mmio_queue_ready : ℕ
mmio_queue_ready = 0x044

abbrev pub mmio_queue_notify : ℕ
mmio_queue_notify = 0x050

abbrev pub mmio_status : ℕ
mmio_status = 0x070

abbrev pub mmio_queue_desc_lo : ℕ
mmio_queue_desc_lo = 0x080

abbrev pub mmio_queue_desc_hi : ℕ
mmio_queue_desc_hi = 0x084

abbrev pub mmio_driver_desc_lo : ℕ
mmio_driver_desc_lo = 0x090

abbrev pub mmio_driver_desc_hi : ℕ
mmio_driver_desc_hi = 0x094

abbrev pub mmio_device_desc_lo : ℕ
mmio_device_desc_lo = 0x0a0

abbrev pub mmio_device_desc_hi : ℕ
mmio_device_desc_hi = 0x0a4

abbrev pub s_acknowledge : ℕ
s_acknowledge = 1

abbrev pub s_driver : ℕ
s_driver = 2

abbrev pub s_driver_ok : ℕ
s_driver_ok = 4

abbrev pub s_features_ok : ℕ
s_features_ok = 8

-- A card of another state than the driver's: what a load of a register finds, which leaves the card as it is,
-- and what a store does to it.
pub record Port (D : Type 0) : Type 0 where
  pub load : D → ℕ → ℕ
  pub store : ℕ → ℕ → D → D

-- `R32(off)` on the right of an assignment, and on the left
abbrev pub read32 : {D : Type 0} → Port D → ℕ → D → ℕ
read32 port off d = u32 (port.load d off)

abbrev pub write32 : {D : Type 0} → Port D → ℕ → ℕ → D → D
write32 port off v d = port.store off (u32 v) d

-- `x & ~(1u << k)`
abbrev pub clear_bit : ℕ → ℕ → ℕ
clear_bit k x = x - x / 2 ^ k % 2 * 2 ^ k

-- the addresses of the three parts of a queue go to the card
unfoldable pub set_addresses : {D : Type 0} → Port D → ℕ → ℕ → ℕ → D → D
set_addresses port desc avail used d = write32 port mmio_device_desc_hi (used / 2 ^ 32) (
    write32 port mmio_device_desc_lo used (
      write32 port mmio_driver_desc_hi (avail / 2 ^ 32) (
        write32 port mmio_driver_desc_lo avail (
          write32 port mmio_queue_desc_hi (desc / 2 ^ 32)
            (write32 port mmio_queue_desc_lo desc d)))))
