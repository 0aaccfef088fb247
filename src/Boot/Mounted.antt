-- ===== src/Boot/Mounted.antt =====
-- src/main.c: the disk and the file system come up together.
use kernel_hobby.Fs.Disk.{Disk}
use kernel_hobby.Fs.State.{Fs}
