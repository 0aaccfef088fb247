-- ===== src/Fs/Mount.antt =====
-- src/fs.c, `fs_init`: superblock, recovery, directory, bitmap.
pub mod Laws
pub mod Bitmap
use kernel_hobby.Base.{ℕ, Bool, true, false, List, ltb, ◌==◌, ◌||◌, not, if◌then◌else◌}
use kernel_hobby.Fs.Format.{
  Block, Superblock, fs_magic, maxfiles, dirblock, decode_super, decode_dir,
}
use kernel_hobby.Fs.Disk.{Disk, disk_read}
use kernel_hobby.Fs.State.{Fs, maxblk}
use kernel_hobby.Fs.Log.{recover}
use kernel_hobby.Fs.Alloc.{build_bitmap}

-- `if (total_blocks == 0 || total_blocks > MAXBLK) total_blocks = MAXBLK;`
unfoldable pub clamp_total : ℕ → ℕ
clamp_total n = if n == 0 || ltb maxblk n then maxblk else n

-- `if (nfiles > MAXFILES) nfiles = MAXFILES;` (the signed comparison is of a number below 2 ^ 31)
unfoldable pub clamp_files : ℕ → ℕ
clamp_files n = if ltb maxfiles n then maxfiles else n

-- what `fs_init` loads from the disk that recovery left
unfoldable pub load : ℕ → Disk → Fs → Fs
unfolding clamp_files
load total d s =
    let sb = decode_super (disk_read d 0) in
    let nfiles = clamp_files sb.nfiles in
    let dir = decode_dir maxfiles (disk_read d dirblock) in
    record s {
      disk = d;
      dir = dir;
      nfiles = nfiles;
      mounted = true;
      next_free = sb.next_free;
      total_blocks = total;
      used = build_bitmap nfiles dir;
    }

unfoldable pub fs_init : Fs → Fs
unfolding load clamp_total
fs_init s =
    let sb = decode_super (disk_read s.disk 0) in
    if not s.disk.ready
    then s
    else if not (sb.magic == fs_magic)
    then s
    else load (clamp_total sb.total_blocks) (recover s.disk) s
