-- ===== src/Virtio/Tests.antt =====
-- A device that follows the protocol, and a write to it.
use kernel_hobby.Base.{
  ℕ, ◌-◌, ◌^◌, ◌||◌, List, ◌≡◌, refl, arith, true, false, some, [], ◌∷◌, update, ◌==◌,
  if◌then◌else◌,
}
use kernel_hobby.Kalloc.{Kmem, kalloc, take_first}
use kernel_hobby.Virtio.Port.{
  set_addresses, mmio_magic, mmio_version, mmio_device_id, mmio_vendor_id, mmio_status,
  mmio_queue_num_max, mmio_driver_feat, mmio_driver_desc_lo,
}
use kernel_hobby.Virtio.Init.{
  DiskCard, virtio_disk_init, identified, reset_card, accept_features, low_features, start_queue,
}
use kernel_hobby.Virtio.Handshake.{Store, recorder}
use kernel_hobby.Virtio.Bringup.{BringsUp, virtio_disk_init-BringsUp}
use kernel_hobby.Fs.Disk.{Image, Disk, disk_write}
use kernel_hobby.Virtio.{Device, Driver, elsewhere, virtio_disk_rw}
use kernel_hobby.Virtio.Refine.{FollowsProtocol, Implements, virtio_disk_rw-Implements}

-- a card that has seen `seen` requests and answered as many
record Card : Type 0 where
  image : Image
  seen : ℕ

abbrev serve : Device Card
serve q buf d = record {
  used_idx = q.avail_idx;
  buffer = if q.breq.type == 0 then d.image q.breq.sector else buf;
  bstatus = 0;
  card = record {
    image = if q.breq.type == 0 then d.image else update d.image q.breq.sector buf;
    seen = q.avail_idx;
  };
}

serve-FollowsProtocol : FollowsProtocol serve (λ d. d.image) (λ d. d.seen) (λ d. d.seen)
serve-FollowsProtocol = record {
  reads = λ q buf d new chain kind.
      let is_read : (q.breq.type == 0) ≡ true = ground arith in
      rw is_read (record { next = new; used_now = refl; seen_now = refl; ok = refl }, refl, refl);
  writes = λ q buf d new chain kind.
      let is_write : (q.breq.type == 0) ≡ false = ground arith in
      rw is_write (record { next = new; used_now = refl; seen_now = refl; ok = refl }, refl, refl);
}

abbrev disk : Disk
disk = record { ready = true; image = λ b. []; history = [] }

abbrev driver : Driver Card
driver = record {
  shared = record {
    desc = λ i. record { addr = elsewhere; len = 0; flags = 0; next = 0 };
    avail_idx = 65535;
    avail_ring = λ i. 0;
    breq = record { type = 0; reserved = 0; sector = 0 };
  };
  used_seen = 65535;
  disk_ok = true;
  card = record { image = λ b. []; seen = 65535 };
}

driver-Implements : Implements serve (λ d. d.image) (λ d. d.seen) (λ d. d.seen) driver disk.image
driver-Implements = record {
  up = refl;
  avail = refl;
  small = omega arith;
  used_same = refl;
  used_small = omega arith;
  same = refl;
}

virtio_disk_rw-Implements_example :
    (s' : Driver Card) × (virtio_disk_rw serve 7 (1 ∷ 2 ∷ []) true driver
      ≡ some (true, (1 ∷ 2 ∷ []), s'))
    × Implements serve
        (λ d. d.image)
        (λ d. d.seen)
        (λ d. d.seen)
        s'
        (disk_write disk 7 (1 ∷ 2 ∷ [])).image
virtio_disk_rw-Implements_example =
    virtio_disk_rw-Implements serve (λ d. d.image) (λ d. d.seen) (λ d. d.seen) serve-FollowsProtocol
      7 (1 ∷ 2 ∷ []) true driver disk driver-Implements

-- a disk, as the list of what was stored to it
abbrev disk_answers : ℕ → List Store → ℕ → ℕ
disk_answers i ws off =
    if off == mmio_magic
    then 0x74726976
    else if off == mmio_version || off == mmio_device_id
    then 2
    else if off == mmio_vendor_id
    then 0x554d4551
    else if off == mmio_status
    then 11
    else if off == mmio_queue_num_max
    then 1024
    else 2 ^ 32 - 1

-- three pages are free
abbrev pages : Kmem
pages = record {
  mem = λ a. if a == 0x87FFF000 then 0x87FFE000 else if a == 0x87FFE000 then 0x87FFD000 else 0;
  freelist = 0x87FFF000;
  freecnt = 3;
  refcnt = λ i. 0;
}

-- a driver before `virtio_disk_init`
abbrev down : {D : Type 0} → D → DiskCard D
down d = record {
  driver = record { shared = driver.shared; used_seen = 0; disk_ok = false; card = d };
  desc = 0;
  avail = 0;
  used = 0;
  misplaced = driver.shared;
  kmem = pages;
  out = [];
}

abbrev values_at : ℕ → List Store → List ℕ
values_at off [] = []
values_at off (w ∷ ws) =
    let rest = values_at off ws in if w.off == off then w.value ∷ rest else rest

-- the features that the driver takes of a card that has them all, the status at last, and the low half of the
-- address of a page
init_stores :
    (values_at mmio_driver_feat (virtio_disk_init (recorder disk_answers 0) (down [])).driver.card
      ≡ (2 ^ 32 - 1) ∷ 0xC7FFE75F ∷ [])
    × (values_at mmio_status (virtio_disk_init (recorder disk_answers 0) (down [])).driver.card
        ≡ 15 ∷ 11 ∷ 3 ∷ 1 ∷ 0 ∷ [])
    × (values_at mmio_driver_desc_lo
          (virtio_disk_init (recorder disk_answers 0) (down [])).driver.card
        ≡ 0x87FFE000 ∷ [])
unfolding virtio_disk_init identified reset_card accept_features low_features start_queue
    set_addresses kalloc take_first
init_stores = (refl, refl, refl)

virtio_disk_init-BringsUp_example : BringsUp (virtio_disk_init (recorder disk_answers 0) (down []))
virtio_disk_init-BringsUp_example = virtio_disk_init-BringsUp disk_answers (down []) refl refl
