-- ===== src/Fs/Read.antt =====
-- src/fs.c, the read path: fs_read, fs_stat, fs_read_page, fs_cat.
pub mod Laws
pub mod Names
pub mod Pages
use kernel_hobby.Base.{
  ℕ, zero, suc, ◌+◌, ◌-◌, ◌/◌, ◌^◌, Bool, true, false, List, [], ◌∷◌, ◌++◌, Option, none, some,
  take, length, fill, get_or, u32, ltb, leb, ◌==◌, ◌&&◌, not, if◌then◌else◌,
}
use kernel_hobby.Fs.Format.{Dirent, blank, bsize}
use kernel_hobby.Fs.Disk.{Disk, disk_read}
use kernel_hobby.Fs.State.{Fs, streq}

-- The scan `for (i = 0; i < nfiles; i++) if (streq(dir[i].name, name))`, from `i` on with `n` entries left.
unfoldable pub find : ℕ → ℕ → List Dirent → List ℕ → Option ℕ
find zero i dir name = none
find (suc n) i dir name =
    if streq (get_or dir i blank).name name then some i else find n (suc i) dir name

unfoldable pub lookup : Fs → List ℕ → Option ℕ
unfolding find
lookup s name = find s.nfiles 0 s.dir name

-- `while (remaining > 0)` over the blocks of a file, at most `f` of them: the bytes in order
unfoldable pub read_blocks : ℕ → Disk → ℕ → ℕ → List ℕ
read_blocks zero d blk remaining = []
read_blocks (suc f) d blk remaining =
    let n = if ltb bsize remaining then bsize else remaining in
    let rest = read_blocks f d (u32 (blk + 1)) (remaining - n) in
    if remaining == 0 then [] else take n (disk_read d blk) ++ rest

-- Every round but the last takes BSIZE bytes, so that `size / BSIZE + 1` rounds are enough.
unfoldable pub file_bytes : Disk → Dirent → List ℕ
unfolding read_blocks
file_bytes d e = read_blocks (e.size / bsize + 1) d e.start e.size

-- `(int)size > max`: a size from 2 ^ 31 on is read as a negative number.
unfoldable pub too_large : ℕ → ℕ → Bool
too_large size max = if ltb size (2 ^ 31) then ltb max size else false

-- `fs_read`: the bytes that it puts in `buf`, with their number as result; `none` is -1.
unfoldable pub fs_read : Fs → List ℕ → ℕ → Option (List ℕ)
unfolding lookup file_bytes too_large
fs_read s name max = if not s.mounted then none else elim (lookup s name) [
  | none ↦ none
  | some i ↦
      if too_large (get_or s.dir i blank).size max
      then none
      else some (file_bytes s.disk (get_or s.dir i blank))
]

-- `fs_stat`: the start block and the size
unfoldable pub fs_stat : Fs → List ℕ → Option (ℕ × ℕ)
unfolding lookup
fs_stat s name = if not s.mounted then none else elim (lookup s name) [
  | none ↦ none
  | some i ↦ some ((get_or s.dir i blank).start, (get_or s.dir i blank).size)
]

-- `fs_cat`: the bytes that it prints; `none` stands for its two error messages.
unfoldable pub fs_cat : Fs → List ℕ → Option (List ℕ)
unfolding lookup file_bytes
fs_cat s name = if not s.mounted then none else elim (lookup s name) [
  | none ↦ none
  | some i ↦ some (file_bytes s.disk (get_or s.dir i blank))
]

-- The rounds of `fs_read_page`: `f` of them left, at byte `done` of the page. A round copies the
-- bytes of a block that lie before the end of the file; the rest of the page stays 0.
unfoldable pub page_rounds : ℕ → Disk → ℕ → ℕ → ℕ → ℕ → List ℕ
page_rounds zero d blk size offset done = []
page_rounds (suc f) d blk size offset done =
    let left = size - u32 (offset + done) in
    let n = if ltb bsize left then bsize else left in
    let rest = page_rounds f d (u32 (blk + 1)) size offset (done + bsize) in
    if ltb done 4096 && ltb (u32 (offset + done)) size
    then fill bsize (take n (disk_read d blk)) ++ rest
    else []

-- `done` goes up by 512 to 4096, in 8 rounds.
unfoldable pub fs_read_page : Disk → ℕ → ℕ → ℕ → List ℕ
unfolding page_rounds
fs_read_page d start size offset =
    fill 4096 (page_rounds 8 d (u32 (start + offset / bsize)) size offset 0)
