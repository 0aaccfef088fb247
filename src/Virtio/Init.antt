-- ===== src/Virtio/Init.antt =====
-- src/virtio.c: virtio_disk_init, over the registers of the card.
use kernel_hobby.Base.{
  ℕ, ◌+◌, ◌/◌, ◌%◌, Bool, true, not, ◌&&◌, ◌||◌, List, ltb, ◌==◌, if◌then◌else◌, codes,
}
use kernel_hobby.Kalloc.{Kmem, kalloc}
use kernel_hobby.Uart.{uart_puts}
use kernel_hobby.Vm.{zero_page}
use kernel_hobby.Virtio.{Driver, Shared, elsewhere, num}
use kernel_hobby.Virtio.Port.{
  Port, read32, write32, clear_bit, set_addresses, mmio_magic, mmio_version, mmio_device_id,
  mmio_vendor_id, mmio_device_feat, mmio_device_feat_sel, mmio_driver_feat, mmio_driver_feat_sel,
  mmio_queue_sel, mmio_queue_num_max, mmio_queue_num, mmio_queue_ready, mmio_status, s_acknowledge,
  s_driver, s_driver_ok, s_features_ok,
}

abbrev pub virtio_blk_f_ro : ℕ
virtio_blk_f_ro = 5

abbrev pub virtio_blk_f_scsi : ℕ
virtio_blk_f_scsi = 7

abbrev pub virtio_blk_f_config_wce : ℕ
virtio_blk_f_config_wce = 11

abbrev pub virtio_blk_f_mq : ℕ
virtio_blk_f_mq = 12

abbrev pub virtio_f_any_layout : ℕ
virtio_f_any_layout = 27

abbrev pub virtio_ring_f_indirect : ℕ
virtio_ring_f_indirect = 28

abbrev pub virtio_ring_f_event_idx : ℕ
virtio_ring_f_event_idx = 29

-- The static variables with the card, the pages of the rings, the page allocator, and what went out. `misplaced` is
-- what the driver finds for its rings where `kalloc` has no page for one of them: they are then at the address 0,
-- over one another or where there is no memory.
pub record DiskCard (D : Type 0) : Type 0 where
  pub driver : Driver D
  pub desc : ℕ
  pub avail : ℕ
  pub used : ℕ
  pub misplaced : Shared
  pub kmem : Kmem
  pub out : List ℕ

-- the rings in pages of zeros
abbrev pub zero_shared : Shared → Shared
zero_shared q = record q {
  desc = λ i. record { addr = elsewhere; len = 0; flags = 0; next = 0 };
  avail_idx = 0;
  avail_ring = λ i. 0;
}

module _ {D : Type 0} (port : Port D) where
  -- the four registers that say what the card is
  unfoldable pub identified : D → Bool
  identified d =
      read32 port mmio_magic d == 0x74726976
      && read32 port mmio_version d == 2
      && read32 port mmio_device_id d == 2
      && read32 port mmio_vendor_id d == 0x554d4551

  unfoldable pub low_features : D → ℕ
  low_features d = clear_bit virtio_ring_f_indirect (
      clear_bit virtio_ring_f_event_idx (
        clear_bit virtio_f_any_layout (
          clear_bit virtio_blk_f_mq (
            clear_bit virtio_blk_f_config_wce (
              clear_bit virtio_blk_f_scsi
                (clear_bit virtio_blk_f_ro (read32 port mmio_device_feat d)))))))

  -- from the reset to FEATURES_OK
  unfoldable pub reset_card : D → D
  reset_card d =
      write32 port mmio_status (s_acknowledge + s_driver)
        (write32 port mmio_status s_acknowledge (write32 port mmio_status 0 d))

  unfoldable pub accept_features : D → D
  accept_features d =
      let d1 = write32 port mmio_device_feat_sel 0 d in
      let lo = low_features d1 in
      let d2 = write32 port mmio_driver_feat lo (write32 port mmio_driver_feat_sel 0 d1) in
      let d3 = write32 port mmio_device_feat_sel 1 d2 in
      let hi = read32 port mmio_device_feat d3 in
      write32 port mmio_status (s_acknowledge + s_driver + s_features_ok)
        (write32 port mmio_driver_feat hi (write32 port mmio_driver_feat_sel 1 d3))

  -- the end of the initialisation, on a card whose queue is selected
  unfoldable pub start_queue : D → DiskCard D → DiskCard D
  start_queue d s =
      let (desc, k1) = kalloc s.kmem in
      let (avail, k2) = kalloc k1 in
      let (used, k3) = kalloc k2 in
      record {
        desc = desc;
        avail = avail;
        used = used;
        misplaced = s.misplaced;
        kmem = zero_page used (zero_page avail (zero_page desc k3));
        out = uart_puts (codes "[ok] virtio-blk disk ready\n") s.out;
        driver = record {
          shared =
              if desc == 0 || avail == 0 || used == 0
              then s.misplaced
              else zero_shared s.driver.shared;
          used_seen = 0;
          disk_ok = true;
          card = write32 port mmio_status (s_acknowledge + s_driver + s_features_ok + s_driver_ok) (
              write32 port mmio_queue_ready 1
                (set_addresses port desc avail used (write32 port mmio_queue_num num d)));
        };
      }

  abbrev pub left_at : List ℕ → D → DiskCard D → DiskCard D
  left_at text d s = record s { driver = record s.driver { card = d }; out = uart_puts text s.out }

  unfoldable pub virtio_disk_init : DiskCard D → DiskCard D
  virtio_disk_init s =
      let d = s.driver.card in
      let d1 = accept_features (reset_card d) in
      let d2 = write32 port mmio_queue_sel 0 d1 in
      let max = read32 port mmio_queue_num_max d2 in
      if not (identified d)
      then left_at (codes "[virtio] no disk at 0x10001000\n") d s
      else if read32 port mmio_status d1 / 8 % 2 == 0
      then left_at (codes "[virtio] FEATURES_OK rejected\n") d1 s
      else if max == 0 || ltb max num
      then left_at (codes "[virtio] bad queue size\n") d2 s
      else start_queue d2 s
