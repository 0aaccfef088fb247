-- ===== src/Virtio/Bringup.antt =====
-- src/virtio.c: virtio_disk_init keeps to the order of the stores, and leaves a driver that implements the disk.
use kernel_hobby.Base.{
  ℕ, ◌%◌, ◌/◌, ◌==◌, ◌||◌, ltb, ◌≡◌, refl, false, Bool-cases, inl, inr, some, List, [],
}
use kernel_hobby.Virtio.{num}
use kernel_hobby.Virtio.Port.{
  Port, read32, write32, set_addresses, mmio_status, mmio_queue_sel, mmio_queue_num_max,
}
use kernel_hobby.Virtio.Init.{
  DiskCard, identified, reset_card, accept_features, start_queue, virtio_disk_init,
}
use kernel_hobby.Virtio.Handshake.{
  Phase, idle, agreed, at_queue, live, is_live, Store, phase_of, recorder,
}

-- Where the stores of the driver have brought the disk, which takes part once it is live.
abbrev pub BringsUp : DiskCard (List Store) → Type 0
BringsUp s = (p : Phase) × (phase_of 0 s.driver.card ≡ some p) × (s.driver.disk_ok ≡ is_live p)

module _ (answers : ℕ → List Store → ℕ → ℕ) where
  abbrev port : Port (List Store)
  port = recorder answers 0

  -- the stores up to FEATURES_OK, and those up to the choice of the queue
  abbrev agreed_log : List Store
  agreed_log = accept_features port (reset_card port [])

  abbrev selected_log : List Store
  selected_log = write32 port mmio_queue_sel 0 agreed_log

  from_boot :
      (s : DiskCard (List Store))
      → s.driver.card ≡ []
      → s.driver.disk_ok ≡ false
      → BringsUp (virtio_disk_init port s)
  unfolding virtio_disk_init start_queue accept_features reset_card set_addresses
  from_boot s e down = rw e (elim (Bool-cases (identified port [])) [
    | inr other ↦ (idle, rw other refl, rw other down)
    | inl disk ↦ elim (Bool-cases (read32 port mmio_status agreed_log / 8 % 2 == 0)) [
      | inl rejected ↦ (agreed, rw (disk, rejected) refl, rw (disk, rejected) down)
      | inr accepted ↦
          elim (Bool-cases (
            read32 port mmio_queue_num_max selected_log == 0
            || ltb (read32 port mmio_queue_num_max selected_log) num)) [
              | inl small ↦
                  (at_queue 0, rw (disk, accepted, small) refl, rw (disk, accepted, small) down)
              | inr large ↦ (live, rw (disk, accepted, large) refl, rw (disk, accepted, large) refl)
            ]
    ]
  ])

-- Whatever the card answers: the stores of `virtio_disk_init` at boot are in the order of the handshake, and the
-- driver is ready exactly when they have brought the card live.
pub virtio_disk_init-BringsUp :
    (answers : ℕ → List Store → ℕ → ℕ) (s : DiskCard (List Store))
    → s.driver.card ≡ []
    → s.driver.disk_ok ≡ false
    → BringsUp (virtio_disk_init (recorder answers 0) s)
virtio_disk_init-BringsUp answers s e down = from_boot answers s e down
