-- ===== src/Virtio/Refine.antt =====
-- src/virtio.c: with a device that follows the protocol of virtio-blk, virtio_disk_rw reads and writes
-- blocks of an image.
use kernel_hobby.Base.{
  ℕ, ◌+◌, ◌%◌, ◌^◌, ◌<◌, ◌≡◌, refl, sym, ◌∙◌, ap, arith, Bool, true, false, some, update, ◌==◌,
  if◌then◌else◌,
}
use kernel_hobby.Fs.Format.{Block, bsize}
use kernel_hobby.Fs.Disk.{Image, Disk, disk_read, disk_write}
use kernel_hobby.Virtio.{
  to_request, to_buffer, to_status, Shared, Answer, Device, Driver, num, submit, virtio_disk_rw,
  virtio_blk_t_in, virtio_blk_t_out,
}

-- Three descriptors from `h` on make up a request whose buffer has the given flags.
pub record IsChain (q : Shared) (h flags : ℕ) : Type 0 where
  pub head : ((q.desc h).addr ≡ to_request) × ((q.desc h).len ≡ 16) × ((q.desc h).flags ≡ 1)
  pub body :
      ((q.desc (q.desc h).next).addr ≡ to_buffer)
      × ((q.desc (q.desc h).next).len ≡ bsize)
      × ((q.desc (q.desc h).next).flags ≡ flags)
  pub tail :
      ((q.desc (q.desc (q.desc h).next).next).addr ≡ to_status)
      × ((q.desc (q.desc (q.desc h).next).next).len ≡ 1)
      × ((q.desc (q.desc (q.desc h).next).next).flags ≡ 2)

module _ {D : Type 0} (device : Device D) (image : D → Image) (seen used : D → ℕ) where
  -- One new request is in the available ring.
  abbrev pub IsNew : Shared → D → Type 0
  IsNew q d = q.avail_idx ≡ (seen d + 1) % 2 ^ 16

  -- The device took the request: it is seen, and the used ring has one more entry.
  pub record Took (q : Shared) (d : D) (a : Answer D) : Type 0 where
    pub next : a.used_idx ≡ (used d + 1) % 2 ^ 16
    pub used_now : used a.card ≡ a.used_idx
    pub seen_now : seen a.card ≡ q.avail_idx
    pub ok : a.bstatus ≡ 0

  -- A device follows the protocol: it takes a request to read or to write a sector from the ring.
  pub record FollowsProtocol : Type 0 where
    pub reads :
        (q : Shared) (buf : Block) (d : D)
        → IsNew q d
        → IsChain q (q.avail_ring (seen d % num)) 3
        → q.breq.type ≡ virtio_blk_t_in
        → Took q d (device q buf d)
          × ((device q buf d).buffer ≡ image d q.breq.sector)
          × (image (device q buf d).card ≡ image d)
    pub writes :
        (q : Shared) (buf : Block) (d : D)
        → IsNew q d
        → IsChain q (q.avail_ring (seen d % num)) 1
        → q.breq.type ≡ virtio_blk_t_out
        → Took q d (device q buf d)
          × ((device q buf d).buffer ≡ buf)
          × (image (device q buf d).card ≡ update (image d) q.breq.sector buf)

  -- The driver and its device agree on the rings, and hold the image of a disk.
  pub record Implements (s : Driver D) (m : Image) : Type 0 where
    pub up : s.disk_ok ≡ true
    pub avail : s.shared.avail_idx ≡ seen s.card
    pub small : seen s.card < 2 ^ 16
    pub used_same : s.used_seen ≡ used s.card
    pub used_small : used s.card < 2 ^ 16
    pub same : image s.card ≡ m

  -- the chain that the driver submits
  submit-IsChain :
      (block : ℕ) (write : Bool) (q : Shared) (d : D)
      → q.avail_idx ≡ seen d
      → IsChain
          (submit block write q)
          ((submit block write q).avail_ring (seen d % num))
          (if write then 1 else 3)
  unfolding submit
  submit-IsChain block write q d h =
      let here : (q.avail_idx % num == seen d % num) ≡ true = ground arith in
      rw here record {
        head = (refl, refl, refl);
        body = (refl, refl, flags write);
        tail = (refl, refl, refl);
      }
    where
      flags : (write : Bool) → (if write then 0 else 2) + 1 ≡ (if write then 1 else 3)
      flags true = refl
      flags false = refl

  submit-IsNew :
      (block : ℕ) (write : Bool) (q : Shared) (d : D)
      → q.avail_idx ≡ seen d
      → IsNew (submit block write q) d
  unfolding submit
  submit-IsNew block write q d h = ap (λ n. (n + 1) % 2 ^ 16) h

  -- what the driver makes of an answer
  answered :
      (block : ℕ) (buf : Block) (write : Bool) (s : Driver D) (m m' : Image) (result : Block)
      → Implements s m
      → Took (submit block write s.shared) s.card (device (submit block write s.shared) buf s.card)
      → (device (submit block write s.shared) buf s.card).buffer ≡ result
      → image (device (submit block write s.shared) buf s.card).card ≡ m'
      → (s' : Driver D) × (virtio_disk_rw device block buf write s ≡ some (true, result, s'))
        × Implements s' m'
  unfolding virtio_disk_rw
  answered block buf write s m m' result v took e e' =
      let q = submit block write s.shared in
      let a = device q buf s.card in
      let moved : (a.used_idx == s.used_seen) ≡ false =
        ground (arith, took.next, v.used_same, v.used_small) in
      let ok : (a.bstatus == 0) ≡ true = ground (arith, took.ok) in
      (
        record s { shared = q; used_seen = a.used_idx; card = a.card },
        rw (v.up, moved, ok, e) refl,
        record {
          up = v.up;
          avail = sym took.seen_now;
          small = omega (arith, took.seen_now, submit-IsNew block write s.shared s.card v.avail);
          used_same = sym took.used_now;
          used_small = omega (arith, took.used_now, took.next);
          same = e';
        },
      )

  -- With a device that follows the protocol, a driver that implements a disk returns 0 from
  -- `virtio_disk_rw`: a read fills the buffer with the block of the disk, a write leaves the buffer and changes
  -- that block alone, and the driver then implements the disk after the call.
  pub virtio_disk_rw-Implements :
      FollowsProtocol
      → (block : ℕ) (buf : Block) (write : Bool) (s : Driver D) (d : Disk) → Implements s d.image
      → (s' : Driver D) × (virtio_disk_rw device block buf write s
          ≡ some (true, (if write then buf else disk_read d block), s'))
        × Implements s' (if write then disk_write d block buf else d).image
  unfolding submit
  virtio_disk_rw-Implements p block buf true s d v =
      let q = submit block true s.shared in
      let (took, e, e') =
        p.writes q buf s.card (submit-IsNew block true s.shared s.card v.avail)
          (submit-IsChain block true s.shared s.card v.avail) refl in
      answered block buf true s d.image (update d.image block buf) buf v took e
        (e' ∙ ap (λ m. update m block buf) v.same)
  virtio_disk_rw-Implements p block buf false s d v =
      let q = submit block false s.shared in
      let (took, e, e') =
        p.reads q buf s.card (submit-IsNew block false s.shared s.card v.avail)
          (submit-IsChain block false s.shared s.card v.avail) refl in
      answered block buf false s d.image d.image (d.image block) v took
        (e ∙ ap (λ m. m block) v.same) (e' ∙ v.same)
