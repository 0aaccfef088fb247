-- ===== src/Fs/Change.antt =====
-- src/fs.c, the write path: fs_create and fs_delete, each one transaction of the log.
pub mod Memory
pub mod Removal
pub mod Transaction
pub mod Effect
pub mod Create
pub mod CreateInv
pub mod RoundTrip
pub mod Survive
pub mod Delete
pub mod Watch
use kernel_hobby.Base.{
  ℕ, zero, suc, ◌+◌, ◌-◌, ◌<◌, Bool, true, false, List, [], ◌∷◌, ◌++◌, Option, none, some, fill,
  length, take, drop, get_or, set, ltb, leb, ◌==◌, ◌||◌, not, if◌then◌else◌,
}
use kernel_hobby.Fs.Format.{
  Dirent, Superblock, blank, bsize, maxfiles, namelen, logn, dirblock, fs_magic, encode_dir,
  encode_super,
}
use kernel_hobby.Fs.State.{Fs}
use kernel_hobby.Fs.Log.{log_begin, log_write, log_commit}
use kernel_hobby.Fs.Alloc.{blocks_of, mark, balloc_contig}
use kernel_hobby.Fs.Read.{lookup}

unfoldable pub log_dir : Fs → Fs
log_dir s = log_write dirblock (encode_dir s.dir) s

unfoldable pub log_super : Fs → Fs
log_super s =
    log_write 0
      (encode_super (record {
        magic = fs_magic;
        nfiles = s.nfiles;
        next_free = s.next_free;
        total_blocks = s.total_blocks;
      }))
      s

-- the data blocks of a new file: `n` of them, from block `dst` on, the last one padded with zeros
unfoldable pub log_data : ℕ → ℕ → List ℕ → Fs → Fs
log_data zero dst contents s = s
log_data (suc n) dst contents s =
    log_data n (suc dst) (drop bsize contents) (log_write dst (fill bsize contents) s)

-- `for (; name[k] && k < n; k++) old[k] = name[k]; old[k] = 0;`
unfoldable pub copy_name : ℕ → List ℕ → List ℕ → List ℕ
copy_name n name [] = []
copy_name zero name (x ∷ old) = 0 ∷ old
copy_name (suc n) [] (x ∷ old) = 0 ∷ old
copy_name (suc n) (c ∷ name) (x ∷ old) = if c == 0 then 0 ∷ old else c ∷ copy_name n name old

-- the new entry in the slot `nfiles`, and the memory that goes with it
unfoldable pub add_entry : List ℕ → ℕ → ℕ → ℕ → Fs → Fs
unfolding copy_name
add_entry name size start nblocks s =
    let old = get_or s.dir s.nfiles blank in
    let entry : Dirent = record {
      name = copy_name (namelen - 1) name old.name;
      size = size;
      start = start;
    } in
    record s {
      dir = set s.dir s.nfiles entry;
      nfiles = s.nfiles + 1;
      used = mark true start nblocks s.used;
      next_free = if ltb s.next_free (start + nblocks) then start + nblocks else s.next_free;
    }

-- the transaction of `fs_create`, once a place is found
unfoldable pub create_at : List ℕ → List ℕ → ℕ → ℕ → Fs → Fs
create_at name contents start nblocks s = log_commit (
    log_super (
      log_dir (
        add_entry name (length contents) start nblocks
          (log_data nblocks start contents (log_begin s)))))

-- `fs_create`: the result is true for 0 and false for -1. `size` is the length of `contents`, so it
-- is not negative.
unfoldable pub fs_create : List ℕ → List ℕ → Fs → Bool × Fs
fs_create name contents s =
    let nblocks = blocks_of (length contents) in
    if not s.mounted || leb maxfiles s.nfiles then (false, s) else elim (lookup s name) [
      | some i ↦ (false, s)
      | none ↦
          if ltb logn (nblocks + 2)
          then (false, s)
          else elim (balloc_contig s.used s.total_blocks nblocks) [
            | none ↦ (false, s)
            | some start ↦ (true, create_at name contents start nblocks s)
          ]
    ]

-- `for (j = idx; j < nfiles - 1; j++) dir[j] = dir[j + 1];` with `n` rounds left
unfoldable pub shift_down : ℕ → ℕ → List Dirent → List Dirent
shift_down zero j dir = dir
shift_down (suc n) j dir = shift_down n (suc j) (set dir j (get_or dir (suc j) blank))

-- the memory after the entry `idx` is gone
unfoldable pub drop_entry : ℕ → Fs → Fs
unfolding shift_down
drop_entry idx s =
    let e = get_or s.dir idx blank in
    record s {
      used = mark false e.start (blocks_of e.size) s.used;
      dir = set (shift_down (s.nfiles - 1 - idx) idx s.dir) (s.nfiles - 1) blank;
      nfiles = s.nfiles - 1;
    }

-- the rest of `fs_delete`, once the entry is found
unfoldable pub delete_at : ℕ → Fs → Fs
delete_at idx s = log_commit (log_super (log_dir (log_begin (drop_entry idx s))))

-- `fs_delete`: true for 0, false for -1
unfoldable pub fs_delete : List ℕ → Fs → Bool × Fs
fs_delete name s =
    if not s.mounted
    then (false, s)
    else elim (lookup s name) [ none ↦ (false, s) | some idx ↦ (true, delete_at idx s) ]
