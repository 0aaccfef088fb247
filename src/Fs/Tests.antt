-- ===== src/Fs/Tests.antt =====
-- Runs of the file system, and its theorems at concrete inputs.
use kernel_hobby.Base.{
  ℕ, ◌≡◌, ◌↔◌, inl, inr, refl, true, false, List, [], ◌∷◌, some, arith, replicate, fill, set,
  word_at, words, ltb, ◌==◌, if◌then◌else◌,
}
use kernel_hobby.Fs.Format.{
  Dirent, blank, encode_super, encode_dir, encode_loghdr, decode_loghdr, decode_super,
}
use kernel_hobby.Fs.Format.RoundTrip.{decode_super-encode_super, decode_dir-encode_dir}
use kernel_hobby.Fs.Disk.{Image, Disk}
use kernel_hobby.Fs.State.{Fs, streq}
use kernel_hobby.Fs.Alloc.{blocks_of, balloc_from, balloc_contig, run_free}
use kernel_hobby.Fs.Read.{find, lookup, fs_read}
use kernel_hobby.Fs.Alloc.{mark}
use kernel_hobby.Fs.Change.Memory.{set-IsDirectory, mark-IsBitmap}
use kernel_hobby.Fs.Inv.{super_of, IsPlaced, IsDirectory, IsBitmap, IsMounted}
use kernel_hobby.Fs.Mount.{fs_init}
use kernel_hobby.Fs.Mount.Laws.{boot}
use kernel_hobby.Fs.Log.{log_begin, log_write, log_commit, recover}
use kernel_hobby.Fs.Change.{
  fs_create, fs_delete, create_at, delete_at, add_entry, log_data, log_super, log_dir,
}
use kernel_hobby.Fs.Restart.{images, Among, Restarts, once, again, MountsAs, SameReads}
use kernel_hobby.Fs.Crash.{With, Without, create_atomic, delete_atomic, mount_again}
use kernel_hobby.Fs.Files.{
  CanCreate, create_refused, create-IsMounted, delete-IsMounted, read-create, read-create_other,
}

abbrev no_files : List Dirent
no_files = replicate 8 blank

-- a mounted file system with no file, on a disk of 64 blocks
abbrev fresh_disk : Disk
fresh_disk = record {
  ready = true;
  image = λ b.
      if b == 0
      then encode_super
          (record { magic = 0x52465332; nfiles = 0; next_free = 19; total_blocks = 64 })
      else if b == 1
      then encode_dir no_files
      else fill 512 [];
  history = [];
}

abbrev fresh : Fs
fresh = record {
  disk = fresh_disk;
  dir = no_files;
  nfiles = 0;
  mounted = true;
  next_free = 19;
  total_blocks = 64;
  used = λ b. ltb b 19;
  log_blk = [];
  log_overflow = false;
}

fresh-IsDirectory : IsDirectory no_files 0
fresh-IsDirectory = record {
  entries = omega arith;
  all_slots = refl;
  few = omega arith;
  placed = λ i lt. absurd (omega arith);
  apart = λ i j x li lj o q. absurd (omega arith);
}

fresh-IsBitmap : IsBitmap no_files 0 (λ b. ltb b 19)
fresh-IsBitmap = record {
  meta = λ x lt. ground arith;
  marked = λ i x lt o. absurd (omega arith);
  owned = λ x u le. absurd (ground arith);
}

fresh-IsMounted : IsMounted fresh
unfolding decode_loghdr fill word_at
fresh-IsMounted = record {
  up = refl;
  directory = fresh-IsDirectory;
  bitmap = fresh-IsBitmap;
  total = omega arith;
  next = omega arith;
  clean = refl;
  dir_saved = decode_dir-encode_dir no_files fresh-IsDirectory.entries refl;
  super_saved = decode_super-encode_super (super_of fresh) (omega arith);
}

abbrev text_file : Dirent
text_file = record { name = b'h' ∷ b'i' ∷ replicate 54 0; size = 3; start = 19 }

-- the same disk with one file, `hi`
abbrev one_file : Fs
one_file = record {
  disk = record {
    ready = true;
    image = λ b.
        if b == 0
        then encode_super
            (record { magic = 0x52465332; nfiles = 1; next_free = 20; total_blocks = 64 })
        else if b == 1
        then encode_dir (set no_files 0 text_file)
        else fill 512 [];
    history = [];
  };
  dir = set no_files 0 text_file;
  nfiles = 1;
  mounted = true;
  next_free = 20;
  total_blocks = 64;
  used = mark true 19 (blocks_of 3) (λ b. ltb b 19);
  log_blk = [];
  log_overflow = false;
}

text_file-IsPlaced : IsPlaced text_file
unfolding blocks_of
text_file-IsPlaced = omega arith

one_file-IsMounted : IsMounted one_file
unfolding decode_loghdr fill word_at
one_file-IsMounted = record {
  up = refl;
  directory = dir;
  bitmap =
      mark-IsBitmap fresh-IsDirectory (omega arith) text_file (omega arith) text_file-IsPlaced
        (λ i x lt o q. absurd (omega arith)) fresh-IsBitmap;
  total = omega arith;
  next = omega arith;
  clean = refl;
  dir_saved = decode_dir-encode_dir (set no_files 0 text_file) dir.entries refl;
  super_saved = decode_super-encode_super (super_of one_file) (omega arith);
}
  where
    dir : IsDirectory (set no_files 0 text_file) 1
    dir =
        set-IsDirectory fresh-IsDirectory (omega arith) text_file (omega arith) text_file-IsPlaced
          (λ i x lt o q. absurd (omega arith))

abbrev hello : List ℕ
hello = b'h' ∷ b'i' ∷ []

abbrev text : List ℕ
text = b'o' ∷ b'k' ∷ b'!' ∷ []

-- after `write hi ok!`
abbrev with_hello : Fs
with_hello = (fs_create hello text fresh).1

hello_created : fs_create hello text fresh ≡ (true, with_hello)
unfolding fs_create lookup find balloc_contig balloc_from run_free blocks_of
hello_created = refl

-- the image before the present one
abbrev second : List Image → Image
second [] = fresh.disk.image
second (m ∷ []) = m
second (m ∷ m' ∷ ms) = m'

-- The power fails while the log of that transaction is installed, and again while the mount installs it.
abbrev torn : Image
torn = second with_hello.disk.history

abbrev torn_again : Image
torn_again = second (images (fs_init (boot torn)).disk)

torn-Among : Among torn with_hello.disk.history
unfolding fs_create lookup find balloc_contig balloc_from run_free blocks_of create_at add_entry
    log_data log_begin log_write log_super log_dir log_commit
torn-Among = inr (inl refl)

torn_restarted : Restarts torn torn_again
unfolding fs_create lookup find balloc_contig balloc_from run_free blocks_of create_at add_entry
    log_data log_begin log_write log_super log_dir log_commit fs_init recover encode_super
    decode_super encode_loghdr decode_loghdr fill words word_at
torn_restarted = again torn_again once (inr (inl refl))

create_atomic_example : MountsAs fresh (With hello text fresh) torn torn_again
create_atomic_example =
    create_atomic hello text fresh with_hello torn torn_again fresh-IsMounted refl (omega arith)
      (omega arith) (omega arith) hello_created torn-Among torn_restarted

mount_again_example : SameReads (fs_init (boot fresh.disk.image)) fresh
mount_again_example = mount_again fresh fresh.disk.image fresh-IsMounted once

create-IsMounted_example : IsMounted with_hello
create-IsMounted_example = create-IsMounted hello text fresh fresh-IsMounted refl (omega arith)

delete-IsMounted_example : IsMounted (fs_delete hello fresh).1
delete-IsMounted_example = delete-IsMounted hello fresh fresh-IsMounted refl

read-create_example : fs_read with_hello hello 512 ≡ some text
read-create_example =
    read-create hello text fresh with_hello 512 fresh-IsMounted refl (omega arith) hello_created
      (omega arith) (omega arith) (omega arith)

-- fifteen blocks of contents, and a log of sixteen that takes the directory and the superblock too
abbrev too_long : List ℕ
too_long = replicate 7200 b'x'

create_refused_example :
    ((q : ℕ) → ¬ CanCreate hello too_long fresh q)
    ↔ (fs_create hello too_long fresh ≡ (false, fresh))
unfolding blocks_of
create_refused_example = create_refused hello too_long fresh refl (omega arith) (omega arith)

abbrev other_name : List ℕ
other_name = b'x' ∷ []

other_created : fs_create other_name text one_file ≡ (true, (fs_create other_name text one_file).1)
unfolding fs_create lookup find streq balloc_contig balloc_from run_free blocks_of mark
other_created = refl

read-create_other_example :
    fs_read (fs_create other_name text one_file).1 hello 512 ≡ fs_read one_file hello 512
unfolding lookup find streq
read-create_other_example =
    read-create_other other_name text hello one_file (fs_create other_name text one_file).1 512 0
      one_file-IsMounted refl (omega arith) other_created refl

hello_deleted : fs_delete hello one_file ≡ (true, (fs_delete hello one_file).1)
unfolding fs_delete lookup find streq
hello_deleted = refl

-- The power fails before the last write of the deletion.
abbrev torn_delete : Image
torn_delete = second (images (fs_delete hello one_file).1.disk)

torn_delete-Among : Among torn_delete (fs_delete hello one_file).1.disk.history
unfolding fs_delete lookup find streq delete_at log_begin log_write log_super log_dir log_commit
torn_delete-Among = inl refl

delete_atomic_example :
    (i : ℕ) × (lookup one_file hello ≡ some i)
    × MountsAs one_file (Without i one_file) torn_delete torn_delete
delete_atomic_example =
    delete_atomic hello one_file (fs_delete hello one_file).1 torn_delete torn_delete
      one_file-IsMounted refl hello_deleted torn_delete-Among once

abbrev long_name : List ℕ
long_name = replicate 60 b'n'

long_created : fs_create long_name text fresh ≡ (true, (fs_create long_name text fresh).1)
unfolding fs_create lookup find balloc_contig balloc_from run_free blocks_of
long_created = refl
