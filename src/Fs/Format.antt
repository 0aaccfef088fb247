-- ===== src/Fs/Format.antt =====
-- src/fsformat.h: the on-disk structures, and how fs.c lays them out in blocks of 512 bytes.
pub mod RoundTrip
use kernel_hobby.Base.{
  ℕ, zero, suc, ◌+◌, List, [], ◌∷◌, ◌++◌, take, drop, replicate, fill, words, word_at, words_at,
}

-- a block of the disk, or a buffer of that size: its bytes
abbrev pub Block : Type 0
Block = List ℕ

-- `FS_MAGIC`, 'RFS2'
abbrev pub fs_magic : ℕ
fs_magic = 0x52465332

abbrev pub bsize : ℕ
bsize = 512

abbrev pub maxfiles : ℕ
maxfiles = 8

abbrev pub namelen : ℕ
namelen = 56

abbrev pub dirblock : ℕ
dirblock = 1

abbrev pub loghdr : ℕ
loghdr = 2

abbrev pub logstart : ℕ
logstart = 3

abbrev pub logn : ℕ
logn = 16

abbrev pub datastart : ℕ
datastart = logstart + logn

pub record Superblock : Type 0 where
  pub magic : ℕ
  pub nfiles : ℕ
  pub next_free : ℕ
  pub total_blocks : ℕ

-- `name` is the array of 56 bytes.
pub record Dirent : Type 0 where
  pub name : List ℕ
  pub size : ℕ
  pub start : ℕ

pub record Loghdr : Type 0 where
  pub committed : ℕ
  pub n : ℕ
  pub blk : List ℕ

-- an entry of zeros
abbrev pub blank : Dirent
blank = record { name = replicate namelen 0; size = 0; start = 0 }

-- the superblock image of `log_super`, and the cast of `fs_init`
unfoldable pub encode_super : Superblock → Block
encode_super sb = fill bsize (words (sb.magic ∷ sb.nfiles ∷ sb.next_free ∷ sb.total_blocks ∷ []))

unfoldable pub decode_super : Block → Superblock
decode_super b = record {
  magic = word_at b 0;
  nfiles = word_at b 1;
  next_free = word_at b 2;
  total_blocks = word_at b 3;
}

-- the header image of `write_loghdr`, and the cast of `recover`
unfoldable pub encode_loghdr : Loghdr → Block
encode_loghdr h = fill bsize (words (h.committed ∷ h.n ∷ h.blk))

unfoldable pub decode_loghdr : Block → Loghdr
decode_loghdr b = record { committed = word_at b 0; n = word_at b 1; blk = words_at b 2 logn }

-- the bytes of the array `dir`
unfoldable pub dir_bytes : List Dirent → List ℕ
dir_bytes [] = []
dir_bytes (d ∷ ds) = d.name ++ (words (d.size ∷ d.start ∷ []) ++ dir_bytes ds)

-- the directory image of `log_dir`
unfoldable pub encode_dir : List Dirent → Block
encode_dir ds = fill bsize (dir_bytes ds)

-- `n` entries of 64 bytes, as `fs_init` copies them
unfoldable pub decode_dir : ℕ → Block → List Dirent
decode_dir zero b = []
decode_dir (suc n) b =
    record { name = take namelen b; size = word_at (drop 56 b) 0; start = word_at (drop 56 b) 1 }
    ∷ decode_dir n (drop 64 b)
