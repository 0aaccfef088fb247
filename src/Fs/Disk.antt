-- ===== src/Fs/Disk.antt =====
-- The disk behind `virtio_disk_rw` of src/virtio.c: an image of blocks, written one block at a time.
-- A block is written whole or not at all, and `virtio_disk_rw` polls until the device is done, so the
-- platter goes through the images of `history` (newest first) in the order of the calls.
use kernel_hobby.Base.{ℕ, Bool, List, ◌∷◌, update}
use kernel_hobby.Fs.Format.{Block}

abbrev pub Image : Type 0
Image = ℕ → Block

pub record Disk : Type 0 where
  -- `disk_ok`: the driver is up
  pub ready : Bool
  pub image : Image
  -- the images that the disk held before, newest first
  pub history : List Image

-- `virtio_disk_rw(b, buf, 0)` on a disk that is up
abbrev pub disk_read : Disk → ℕ → Block
disk_read d b = d.image b

-- `virtio_disk_rw(b, buf, 1)` on a disk that is up
abbrev pub disk_write : Disk → ℕ → Block → Disk
disk_write d b v = record d { image = update d.image b v; history = d.image ∷ d.history }
