-- ===== src/Mkfs.antt =====
-- tools/mkfs.c: the image of a disk with the given files, block after block.
pub mod Layout
pub mod Mounts
pub mod Lookup
pub mod Reads
mod Tests
use kernel_hobby.Base.{
  ℕ, zero, suc, ◌+◌, ◌-◌, ◌/◌, Bool, true, false, ◌||◌, Option, none, some, List, [], ◌∷◌, ◌++◌,
  length, take, drop, replicate, get_or, fill, u32, ltb, ◌==◌, if◌then◌else◌,
}
use kernel_hobby.Fs.Format.{
  Block, Superblock, Dirent, blank, fs_magic, bsize, maxfiles, namelen, logn, datastart,
  encode_super, encode_dir,
}
use kernel_hobby.Fs.Disk.{Image}

-- a file of the command line: its path, and the bytes that are read from it
pub record SourceFile : Type 0 where
  pub path : List ℕ
  pub contents : List ℕ

-- `strrchr(path, '/')`, and the path behind it
abbrev pub has_slash : List ℕ → Bool
has_slash [] = false
has_slash (c ∷ cs) = c == b'/' || has_slash cs

abbrev pub base_name : List ℕ → List ℕ
base_name [] = []
base_name (c ∷ cs) =
    let rest = base_name cs in if has_slash cs then rest else if c == b'/' then cs else c ∷ cs

-- `strncpy` of 55 bytes into a name of zeros
abbrev pub name_field : List ℕ → List ℕ
name_field path = fill namelen (take (namelen - 1) (base_name path))

-- `cur += (sz + BSIZE - 1) / BSIZE`
abbrev pub next_block : ℕ → SourceFile → ℕ
next_block cur f = u32 (cur + (length f.contents + bsize - 1) / bsize)

-- the entries of the directory, and the first block behind the files
abbrev pub dirents : ℕ → List SourceFile → List Dirent
dirents cur [] = []
dirents cur (f ∷ fs) =
    record { name = name_field f.path; size = u32 (length f.contents); start = cur }
    ∷ dirents (next_block cur f) fs

abbrev pub last_block : ℕ → List SourceFile → ℕ
last_block cur [] = cur
last_block cur (f ∷ fs) = last_block (next_block cur f) fs

abbrev pub zero_block : Block
zero_block = replicate bsize 0

-- the blocks of a file, `n` rounds of the loop
unfoldable pub file_blocks : ℕ → List ℕ → List Block
file_blocks zero contents = []
file_blocks (suc n) contents =
    let rest = file_blocks n (drop bsize contents) in
    if length contents == 0 then [] else fill bsize contents ∷ rest

-- `sizes[i]` bytes, in at most one round for each 512 of them and one more
abbrev pub blocks_of_file : SourceFile → List Block
blocks_of_file f =
    let size = u32 (length f.contents) in file_blocks (size / bsize + 1) (take size f.contents)

abbrev pub data_blocks : List SourceFile → List Block
data_blocks [] = []
data_blocks (f ∷ fs) = blocks_of_file f ++ data_blocks fs

-- `TOTAL`
unfoldable pub disk_size : ℕ → ℕ
disk_size cur = if ltb 256 cur then cur else 256

abbrev pub directory : List SourceFile → List Dirent
directory files = dirents datastart files ++ replicate (maxfiles - length files) blank

unfoldable pub image_blocks : List SourceFile → List Block
image_blocks files =
    let cur = last_block datastart files in
    encode_super (record {
      magic = fs_magic;
      nfiles = length files;
      next_free = cur;
      total_blocks = disk_size cur;
    })
    ∷ encode_dir (directory files)
    ∷ zero_block
    ∷ (replicate logn zero_block
        ++ (data_blocks files ++ replicate (disk_size cur - cur) zero_block))

-- `main`: the blocks of the image, or none for 1
unfoldable pub mkfs : List SourceFile → Option (List Block)
mkfs files =
    if length files == 0
    then none
    else if ltb maxfiles (length files)
    then none
    else some (image_blocks files)

-- the image as the kernel's disk
abbrev pub image_of : List Block → Image
image_of bs b = get_or bs b zero_block
