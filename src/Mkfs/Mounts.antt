-- ===== src/Mkfs/Mounts.antt =====
-- tools/mkfs.c and fs_init of src/fs.c: the kernel mounts the image.
use kernel_hobby.Base.{
  ◌≤◌, ◌≡◌, refl, subst, sym, arith, true, false, some, List, [], length, word_at,
}
use kernel_hobby.Fs.Format.{
  Block, maxfiles, datastart, decode_super, decode_dir, decode_loghdr, dirblock,
}
use kernel_hobby.Fs.Format.RoundTrip.{decode_super-encode_super, decode_dir-encode_dir}
use kernel_hobby.Fs.Disk.{Image}
use kernel_hobby.Fs.State.{Fs}
use kernel_hobby.Fs.Alloc.{build_bitmap}
use kernel_hobby.Fs.Log.{recover}
use kernel_hobby.Fs.Log.Header.{reboot, IsClean}
use kernel_hobby.Fs.Inv.{super_of, IsMounted}
use kernel_hobby.Fs.Mount.{clamp_total, clamp_files, load, fs_init}
use kernel_hobby.Fs.Mount.Bitmap.{build_bitmap-IsBitmap}
use kernel_hobby.Fs.Mount.Laws.{boot}
use kernel_hobby.Mkfs.{SourceFile, directory, last_block, disk_size, image_blocks, image_of, mkfs}
use kernel_hobby.Mkfs.Layout.{FilesFit, directory-IsDirectory, last_block_lem}

abbrev pub image : List SourceFile → Image
image files = image_of (image_blocks files)

-- the memory of the kernel after mounting
abbrev pub mounted_state : List SourceFile → Fs
mounted_state files = record {
  disk = reboot (image files);
  dir = directory files;
  nfiles = length files;
  mounted = true;
  next_free = last_block datastart files;
  total_blocks = disk_size (last_block datastart files);
  used = build_bitmap (length files) (directory files);
  log_blk = [];
  log_overflow = false;
}

image-super :
    (files : List SourceFile)
    → FilesFit datastart files
    → length files ≤ maxfiles
    → decode_super (image files 0) ≡ super_of (mounted_state files)
unfolding image_blocks
image-super files fit few =
    let bound = last_block_lem datastart files fit in
    decode_super-encode_super (super_of (mounted_state files)) record {
      magic = omega arith;
      nfiles = omega arith;
      next_free = omega arith;
      total_blocks = unfold disk_size in ground arith;
    }

image-dir :
    (files : List SourceFile)
    → FilesFit datastart files
    → length files ≤ maxfiles
    → decode_dir maxfiles (image files dirblock) ≡ directory files
unfolding image_blocks
image-dir files fit few =
    let v = directory-IsDirectory files fit few in
    decode_dir-encode_dir (directory files) v.entries v.all_slots

image-IsClean : (files : List SourceFile) → IsClean (image files)
unfolding image_blocks decode_loghdr word_at
image-IsClean files = refl

recover-IsClean : (m : Image) → IsClean m → recover (reboot m) ≡ reboot m
unfolding recover
recover-IsClean m h = rw (recover, h) refl

-- what `fs_init` makes of the image
pub fs_init-image :
    (files : List SourceFile)
    → FilesFit datastart files
    → length files ≤ maxfiles
    → fs_init (boot (image files)) ≡ mounted_state files
unfolding fs_init load clamp_total clamp_files
fs_init-image files fit few =
    let m = image files in
    let sup = image-super files fit few in
    let bound = last_block_lem datastart files fit in
    let total : clamp_total (disk_size (last_block datastart files))
        ≡ disk_size (last_block datastart files) =
      unfold disk_size in ground arith in
    let count : clamp_files (length files) ≡ length files = ground arith in
    let again = recover-IsClean m (image-IsClean files) in
    rw (fs_init, load, sup, again, sup, image-dir files fit few, total, count) refl

mounted_state-IsMounted :
    (files : List SourceFile)
    → FilesFit datastart files
    → length files ≤ maxfiles
    → IsMounted (mounted_state files)
mounted_state-IsMounted files fit few =
    let v = directory-IsDirectory files fit few in
    let bound = last_block_lem datastart files fit in
    record {
      up = refl;
      directory = v;
      bitmap = build_bitmap-IsBitmap (directory files) (length files) v;
      total = unfold disk_size in ground arith;
      next = omega arith;
      clean = image-IsClean files;
      dir_saved = image-dir files fit few;
      super_saved = image-super files fit few;
    }

pub mkfs_made :
    (files : List SourceFile) (blocks : List Block)
    → mkfs files ≡ some blocks
    → (length files ≤ maxfiles) × (blocks ≡ image_blocks files)
unfolding mkfs
mkfs_made files blocks h = ground arith

-- The image that mkfs makes of files that fit mounts, and what `fs_init` loads satisfies the invariant
-- of a mounted file system: the files are where the directory says, no block belongs to two of them, and the
-- bitmap is exact.
pub mkfs-IsMounted :
    (files : List SourceFile) (blocks : List Block)
    → mkfs files ≡ some blocks
    → FilesFit datastart files
    → IsMounted (fs_init (boot (image_of blocks)))
mkfs-IsMounted files blocks h fit =
    let (few, e) = mkfs_made files blocks h in
    subst (λ bs. IsMounted (fs_init (boot (image_of bs)))) (sym e)
      (rw (fs_init-image files fit few) (mounted_state-IsMounted files fit few))
