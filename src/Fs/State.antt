-- ===== src/Fs/State.antt =====
-- The static variables of src/fs.c.
use kernel_hobby.Base.{ℕ, Bool, true, false, List, [], ◌∷◌, ◌==◌, ◌||◌, if◌then◌else◌}
use kernel_hobby.Fs.Format.{Dirent}
use kernel_hobby.Fs.Disk.{Disk}

-- `MAXBLK`, the size of the bitmap
abbrev pub maxblk : ℕ
maxblk = 8192

pub record Fs : Type 0 where
  pub disk : Disk
  -- `dir[MAXFILES]`
  pub dir : List Dirent
  pub nfiles : ℕ
  pub mounted : Bool
  pub next_free : ℕ
  pub total_blocks : ℕ
  -- `used[MAXBLK]`: true for 1
  pub used : ℕ → Bool
  -- `log_blk[0 .. log_n)`: the array with its count is the list of the entries in use
  pub log_blk : List ℕ
  pub log_overflow : Bool

-- `streq`. A name is a list of bytes; past its end it has the terminator 0.
unfoldable pub streq : List ℕ → List ℕ → Bool
streq [] [] = true
streq [] (y ∷ ys) = y == 0
streq (x ∷ xs) [] = x == 0
streq (x ∷ xs) (y ∷ ys) = if x == 0 || y == 0 then x == y else if x == y then streq xs ys else false
