-- ===== src/Virtio.antt =====
-- src/virtio.c: virtio_disk_rw, over a device that is given. The device reads what the driver shares with it
-- when it is notified, and leaves its answer in the buffer, the status byte and the used ring.
pub mod Port
pub mod Init
pub mod Handshake
pub mod Bringup
pub mod Ready
pub mod Refine
mod Tests
use kernel_hobby.Base.{
  ℕ, ◌+◌, ◌%◌, ◌^◌, Bool, true, false, not, Option, none, some, update, ◌==◌, if◌then◌else◌,
}
use kernel_hobby.Fs.Format.{Block, bsize}

abbrev pub num : ℕ
num = 8

abbrev pub vring_desc_f_next : ℕ
vring_desc_f_next = 1

abbrev pub vring_desc_f_write : ℕ
vring_desc_f_write = 2

abbrev pub virtio_blk_t_in : ℕ
virtio_blk_t_in = 0

abbrev pub virtio_blk_t_out : ℕ
virtio_blk_t_out = 1

-- the addresses that a descriptor can have: `&breq`, `buf`, `&bstatus`, or another
pub data Pointer : Type 0 where
  to_request to_buffer to_status elsewhere : Pointer

-- `struct virtq_desc`
pub record Desc : Type 0 where
  pub addr : Pointer
  pub len : ℕ
  pub flags : ℕ
  pub next : ℕ

-- `struct virtio_blk_req`
pub record Request : Type 0 where
  pub type : ℕ
  pub reserved : ℕ
  pub sector : ℕ

-- what the device reads: `desc`, `avail` and `breq`
pub record Shared : Type 0 where
  pub desc : ℕ → Desc
  pub avail_idx : ℕ
  pub avail_ring : ℕ → ℕ
  pub breq : Request

-- what the device leaves behind: `used->idx`, the buffer, `bstatus`, and its own state
pub record Answer (D : Type 0) : Type 0 where
  pub used_idx : ℕ
  pub buffer : Block
  pub bstatus : ℕ
  pub card : D

-- a notified device, with the bytes of the buffer
abbrev pub Device : Type 0 → Type 0
Device D = Shared → Block → D → Answer D

-- the static variables, with the device behind them
pub record Driver (D : Type 0) : Type 0 where
  pub shared : Shared
  pub used_seen : ℕ
  pub disk_ok : Bool
  pub card : D

-- the request, its three descriptors and its place in the available ring
unfoldable pub submit : ℕ → Bool → Shared → Shared
submit block write q = record {
  breq = record {
    type = if write then virtio_blk_t_out else virtio_blk_t_in;
    reserved = 0;
    sector = block;
  };
  desc =
      update
        (update
          (update q.desc 0
            (record { addr = to_request; len = 16; flags = vring_desc_f_next; next = 1 }))
          1
          (record {
            addr = to_buffer;
            len = bsize;
            flags = (if write then 0 else vring_desc_f_write) + vring_desc_f_next;
            next = 2;
          }))
        2 (record { addr = to_status; len = 1; flags = vring_desc_f_write; next = 0 });
  avail_ring = update q.avail_ring (q.avail_idx % num) 0;
  avail_idx = (q.avail_idx + 1) % 2 ^ 16;
}

-- `virtio_disk_rw`: true for 0 and false for -1, with the buffer. None is the loop that waits for ever, when
-- the device leaves `used->idx` as it was.
unfoldable pub virtio_disk_rw :
    {D : Type 0} → Device D → ℕ → Block → Bool → Driver D → Option (Bool × Block × Driver D)
virtio_disk_rw device block buf write s =
    let q = submit block write s.shared in
    let a = device q buf s.card in
    if not s.disk_ok
    then some (false, buf, s)
    else if a.used_idx == s.used_seen
    then none
    else some
        (a.bstatus == 0, a.buffer, record s { shared = q; used_seen = a.used_idx; card = a.card })
