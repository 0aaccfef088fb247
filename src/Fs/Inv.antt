-- ===== src/Fs/Inv.antt =====
-- The invariant of a mounted file system (the static variables of src/fs.c, and the disk).
use kernel_hobby.Base.{ℕ, ◌+◌, ◌≤◌, ◌<◌, ◌^◌, ◌≡◌, Bool, true, List, length, get_or, All, IsWord}
use kernel_hobby.Fs.Format.{
  Dirent, Superblock, blank, datastart, maxfiles, dirblock, fs_magic, decode_super, decode_dir,
}
use kernel_hobby.Fs.Format.RoundTrip.{IsEntry}
use kernel_hobby.Fs.State.{Fs, maxblk}
use kernel_hobby.Fs.Alloc.{blocks_of}
use kernel_hobby.Fs.Alloc.Laws.{within}
use kernel_hobby.Fs.Log.Header.{IsClean}

-- the entry number `i` of the directory
abbrev pub entry : List Dirent → ℕ → Dirent
entry dir i = get_or dir i blank

-- Block `x` holds data of the file `e`.
abbrev pub Owns : Dirent → ℕ → Type 0
Owns e x = within e.start (blocks_of e.size) x ≡ true

-- the superblock that `log_super` writes
abbrev pub super_of : Fs → Superblock
super_of s = record {
  magic = fs_magic;
  nfiles = s.nfiles;
  next_free = s.next_free;
  total_blocks = s.total_blocks;
}

-- The data of a file are data blocks within the bitmap.
pub record IsPlaced (e : Dirent) : Type 0 where
  pub small : e.size ≤ 2 ^ 31
  pub behind_log : datastart ≤ e.start
  pub within_map : e.start + blocks_of e.size ≤ maxblk

-- The directory: its files lie on the disk, and no block belongs to two of them.
pub record IsDirectory (dir : List Dirent) (n : ℕ) : Type 0 where
  pub entries : All IsEntry dir
  pub all_slots : length dir ≡ maxfiles
  pub few : n ≤ maxfiles
  pub placed : (i : ℕ) → i < n → IsPlaced (entry dir i)
  pub apart : (i j x : ℕ) → i < n → j < n → Owns (entry dir i) x → Owns (entry dir j) x → i ≡ j

-- The bitmap says exactly which blocks are in use: those before the data, and those of files.
pub record IsBitmap (dir : List Dirent) (n : ℕ) (used : ℕ → Bool) : Type 0 where
  pub meta : (x : ℕ) → x < datastart → used x ≡ true
  pub marked : (i x : ℕ) → i < n → Owns (entry dir i) x → used x ≡ true
  pub owned : (x : ℕ) → used x ≡ true → datastart ≤ x → (i : ℕ) × (i < n) × Owns (entry dir i) x

pub record IsMounted (s : Fs) : Type 0 where
  pub up : s.mounted ≡ true
  pub directory : IsDirectory s.dir s.nfiles
  pub bitmap : IsBitmap s.dir s.nfiles s.used
  pub total : (0 < s.total_blocks) × (s.total_blocks ≤ maxblk)
  pub next : IsWord s.next_free
  pub clean : IsClean s.disk.image
  -- the disk holds what memory holds
  pub dir_saved : decode_dir maxfiles (s.disk.image dirblock) ≡ s.dir
  pub super_saved : decode_super (s.disk.image 0) ≡ super_of s
