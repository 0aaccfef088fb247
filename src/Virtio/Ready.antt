-- ===== src/Virtio/Ready.antt =====
-- src/virtio.c: after virtio_disk_init the driver and a disk that keeps to the protocol agree on the rings.
use kernel_hobby.Base.{
  ℕ, ◌%◌, ◌/◌, ◌==◌, ◌||◌, ◌&&◌, ◌≤◌, ltb, ◌≡◌, refl, sym, ◌∙◌, true, false, arith, ◌≢◌, ◌⊎◌, List,
  ◌∷◌,
}
use kernel_hobby.Kalloc.{Kmem, kalloc, take_first}
use kernel_hobby.Kalloc.Heap.{IsPage, IsHeap}
use kernel_hobby.Kalloc.Laws.{refs, Allocated, take_first-Allocated, kalloc-cons}
use kernel_hobby.Vm.{zero_page}
use kernel_hobby.Vm.Cow.{In}
use kernel_hobby.Fs.Disk.{Image}
use kernel_hobby.Virtio.{num, Device}
use kernel_hobby.Virtio.Port.{
  Port, read32, write32, set_addresses, mmio_magic, mmio_version, mmio_device_id, mmio_vendor_id,
  mmio_status, mmio_queue_num_max, mmio_queue_sel, mmio_queue_num, mmio_queue_ready,
}
use kernel_hobby.Virtio.Init.{
  DiskCard, identified, reset_card, accept_features, start_queue, virtio_disk_init,
}
use kernel_hobby.Virtio.Refine.{Implements}

-- The rings are in three pages of the allocator, apart from one another, which the driver alone uses and which are zero.
pub record HasRings {D : Type 0} (first last x y z : ℕ) (s : DiskCard D) : Type 0 where
  pub at : (s.desc ≡ x) × (s.avail ≡ y) × (s.used ≡ z)
  pub pages : IsPage first last x × IsPage first last y × IsPage first last z
  pub apart : (x ≢ y) × (x ≢ z) × (y ≢ z)
  pub owned : (refs s.kmem x ≡ 1) × (refs s.kmem y ≡ 1) × (refs s.kmem z ≡ 1)
  pub zeros : (a : ℕ) → In a x ⊎ (In a y ⊎ In a z) → s.kmem.mem a ≡ 0

-- Three pages are free at least.
module _ (first last x y z : ℕ) (rest : List ℕ) (m : Kmem)
    (h : IsHeap first last (x ∷ y ∷ z ∷ rest) m) where
  a1 : Allocated first last x (y ∷ z ∷ rest) m (take_first m)
  a1 = take_first-Allocated first last x (y ∷ z ∷ rest) m h

  a2 : Allocated first last y (z ∷ rest) (take_first m) (take_first (take_first m))
  a2 = take_first-Allocated first last y (z ∷ rest) (take_first m) a1.heap

  a3 :
      Allocated first last z rest
        (take_first (take_first m))
        (take_first (take_first (take_first m)))
  a3 = take_first-Allocated first last z rest (take_first (take_first m)) a2.heap

  pages_apart : (x ≢ y) × (x ≢ z) × (y ≢ z)
  pages_apart = (
    λ e. absurd (ground (arith, h.distinct.0, e)),
    λ e. absurd (ground (arith, h.distinct.0, e)),
    λ e. absurd (ground (arith, h.distinct.1.0, e)),
  )

  -- the three calls of `kalloc`
  three :
      (kalloc m ≡ (x, take_first m))
      × (kalloc (take_first m) ≡ (y, take_first (take_first m)))
      × (kalloc (take_first (take_first m)) ≡ (z, take_first (take_first (take_first m))))
      × ((x == 0 || y == 0 || z == 0) ≡ false)
  three = (
    kalloc-cons first last x (y ∷ z ∷ rest) m h,
    kalloc-cons first last y (z ∷ rest) (take_first m) a1.heap,
    kalloc-cons first last z rest (take_first (take_first m)) a2.heap,
    ground (arith, h.chain.1, a1.heap.chain.1, a2.heap.chain.1),
  )

  three-HasRings :
      {D : Type 0} (port : Port D) (d : D) (s : DiskCard D)
      → s.kmem ≡ m
      → HasRings first last x y z (start_queue port d s)
  unfolding start_queue zero_page
  three-HasRings port d s e =
      let (k1, k2, k3, there) = three in
      rw (e, k1, k2, k3)
        record {
          at = (refl, refl, refl);
          pages = (a1.page, a2.page, a3.page);
          apart = pages_apart;
          owned = (
            a3.others x a1.page (λ e. pages_apart.1 (sym e))
                ∙ a2.others x a1.page (λ e. pages_apart.0 (sym e))
                ∙ a1.owned,
            a3.others y a2.page (λ e. pages_apart.2 (sym e)) ∙ a2.owned,
            a3.owned,
          );
          zeros = λ a inside. ground (arith, inside);
        }

module _ {D : Type 0} (port : Port D) (image : D → Image) (seen used : D → ℕ) where
  -- A disk that says what it is, takes the features and has place for the queue. A reset empties its rings;
  -- no other store but a notification changes them, and none changes its blocks.
  pub record IsDisk : Type 0 where
    pub magic : (d : D) → read32 port mmio_magic d ≡ 0x74726976
    pub version : (d : D) → read32 port mmio_version d ≡ 2
    pub device_id : (d : D) → read32 port mmio_device_id d ≡ 2
    pub vendor_id : (d : D) → read32 port mmio_vendor_id d ≡ 0x554d4551
    pub accepts : (d : D) → read32 port mmio_status (write32 port mmio_status 11 d) ≡ 11
    pub room : (d : D) → num ≤ read32 port mmio_queue_num_max d
    pub reset :
        (d : D) → (seen (port.store mmio_status 0 d) ≡ 0) × (used (port.store mmio_status 0 d) ≡ 0)
    pub keeps :
        (off v : ℕ) (d : D)
        → (off == 0x050 || (off == mmio_status && v == 0)) ≡ false
        → (seen (port.store off v d) ≡ seen d) × (used (port.store off v d) ≡ used d)
    pub blocks : (off v : ℕ) (d : D) → image (port.store off v d) ≡ image d

  module _ (disk : IsDisk) where
    -- a card that no request reached, with the blocks of `e`
    record IsFresh (e d : D) : Type 0 where
      nothing_seen : seen d ≡ 0
      nothing_used : used d ≡ 0
      same : image d ≡ image e

    store-IsFresh :
        (e d : D) (off v : ℕ)
        → (off == 0x050 || (off == mmio_status && v == 0)) ≡ false
        → IsFresh e d
        → IsFresh e (port.store off v d)
    store-IsFresh e d off v other h = record {
      nothing_seen = (disk.keeps off v d other).0 ∙ h.nothing_seen;
      nothing_used = (disk.keeps off v d other).1 ∙ h.nothing_used;
      same = disk.blocks off v d ∙ h.same;
    }

    reset_card-IsFresh : (d : D) → IsFresh d (reset_card port d)
    unfolding reset_card
    reset_card-IsFresh d = store-IsFresh d _ _ _ refl (
        store-IsFresh d _ _ _ refl (record {
          nothing_seen = (disk.reset d).0;
          nothing_used = (disk.reset d).1;
          same = disk.blocks _ _ d;
        }))

    accept_features-IsFresh : (e d : D) → IsFresh e d → IsFresh e (accept_features port d)
    unfolding accept_features
    accept_features-IsFresh e d h = store-IsFresh e _ _ _ refl (
        store-IsFresh e _ _ _ refl (
          store-IsFresh e _ _ _ refl (
            store-IsFresh e _ _ _ refl (
              store-IsFresh e _ _ _ refl
                (store-IsFresh e _ _ _ refl (store-IsFresh e _ _ _ refl h))))))

    set_addresses-IsFresh :
        (e d : D) (x y z : ℕ) → IsFresh e d → IsFresh e (set_addresses port x y z d)
    unfolding set_addresses
    set_addresses-IsFresh e d x y z h = store-IsFresh e _ _ _ refl (
        store-IsFresh e _ _ _ refl (
          store-IsFresh e _ _ _ refl (
            store-IsFresh e _ _ _ refl
              (store-IsFresh e _ _ _ refl (store-IsFresh e _ _ _ refl h)))))

    started_card-IsFresh :
        (e d : D) (x y z : ℕ)
        → IsFresh e d
        → IsFresh e (
            write32 port mmio_status 15 (
              write32 port mmio_queue_ready 1 (
                set_addresses port x y z
                  (write32 port mmio_queue_num num (write32 port mmio_queue_sel 0 d)))))
    started_card-IsFresh e d x y z h = store-IsFresh e _ _ _ refl (
        store-IsFresh e _ _ _ refl (
          set_addresses-IsFresh e _ x y z
            (store-IsFresh e _ _ _ refl (store-IsFresh e _ _ _ refl h))))

    started-Implements :
        (first last x y z : ℕ) (rest : List ℕ) (device : Device D) (d : D) (s : DiskCard D)
        → IsHeap first last (x ∷ y ∷ z ∷ rest) s.kmem
        → IsFresh s.driver.card d
        → Implements device image seen used
            (start_queue port (write32 port mmio_queue_sel 0 d) s).driver
            (image s.driver.card)
    unfolding start_queue
    started-Implements first last x y z rest device d s heap h =
        let (k1, k2, k3, there) = three first last x y z rest s.kmem heap in
        let card = started_card-IsFresh s.driver.card d _ _ _ h in
        rw (k1, k2, k3, there)
          record {
            up = refl;
            avail = sym card.nothing_seen;
            small = omega (arith, card.nothing_seen);
            used_same = sym card.nothing_used;
            used_small = omega (arith, card.nothing_used);
            same = card.same;
          }

    disk_identified : (d : D) → identified port d ≡ true
    unfolding identified
    disk_identified d = rw (disk.magic d, disk.version d, disk.device_id d, disk.vendor_id d) refl

    disk_accepts : (d : D) → (read32 port mmio_status (accept_features port d) / 8 % 2 == 0) ≡ false
    unfolding accept_features
    disk_accepts d = rw (disk.accepts _) refl

    disk_has_room :
        (d : D)
        → (read32 port mmio_queue_num_max d == 0 || ltb (read32 port mmio_queue_num_max d) num)
          ≡ false
    disk_has_room d = ground (arith, disk.room d)

    -- With a card that is such a disk, and three pages free, `virtio_disk_init` succeeds, from any state of the card:
    -- then the driver implements the disk, with the blocks as they were, and its rings have a page each.
    pub virtio_disk_init-Implements :
        (first last x y z : ℕ) (rest : List ℕ) (device : Device D) (s : DiskCard D)
        → IsHeap first last (x ∷ y ∷ z ∷ rest) s.kmem
        → Implements device image seen used (virtio_disk_init port s).driver (image s.driver.card)
          × HasRings first last x y z (virtio_disk_init port s)
    unfolding virtio_disk_init
    virtio_disk_init-Implements first last x y z rest device s heap =
        let d = accept_features port (reset_card port s.driver.card) in
        rw
          (
            disk_identified s.driver.card,
            disk_accepts (reset_card port s.driver.card),
            disk_has_room (write32 port mmio_queue_sel 0 d),
          )
          (
            started-Implements first last x y z rest device d s heap
                (accept_features-IsFresh _ _ (reset_card-IsFresh s.driver.card)),
            three-HasRings first last x y z rest s.kmem heap port _ s refl,
          )
