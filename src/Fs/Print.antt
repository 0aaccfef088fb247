-- ===== src/Fs/Print.antt =====
-- src/fs.c: what fs_ls and fs_cat print.
use kernel_hobby.Base.{
  ℕ, zero, suc, ◌+◌, not, none, some, List, [], ◌++◌, get_or, if◌then◌else◌, codes, text_of,
}
use kernel_hobby.Uart.{puts_bytes, dec_bytes}
use kernel_hobby.Fs.Format.{Dirent, blank}
use kernel_hobby.Fs.State.{Fs}
use kernel_hobby.Fs.Read.{fs_cat}

abbrev pub ls_line : Dirent → List ℕ
ls_line e =
    codes "  "
    ++ (puts_bytes (text_of e.name)
        ++ (codes "  (" ++ (dec_bytes e.size ++ puts_bytes (codes " bytes)\n"))))

-- the loop over the directory from `i` on, with `n` entries left
unfoldable pub ls_lines : ℕ → ℕ → List Dirent → List ℕ
ls_lines zero i dir = []
ls_lines (suc n) i dir = ls_line (get_or dir i blank) ++ ls_lines n (i + 1) dir

unfoldable pub fs_ls : Fs → List ℕ
fs_ls s =
    if not s.mounted then puts_bytes (codes "ls: no filesystem\n") else ls_lines s.nfiles 0 s.dir

-- all that `fs_cat` sends: the file, or a message
unfoldable pub cat_output : Fs → List ℕ → List ℕ
cat_output s name = elim (fs_cat s name) [
  | some bytes ↦ bytes
  | none ↦
      if not s.mounted
      then puts_bytes (codes "cat: no filesystem\n")
      else puts_bytes (codes "cat: no such file: ") ++ (puts_bytes name ++ codes "\n")
]
