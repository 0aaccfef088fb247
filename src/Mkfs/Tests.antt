-- ===== src/Mkfs/Tests.antt =====
-- An image of two files, and its theorems.
use kernel_hobby.Base.{ℕ, zero, suc, ◌<◌, ◌≡◌, false, fill, refl, arith, some, List, [], ◌∷◌}
use kernel_hobby.Fs.Format.{datastart}
use kernel_hobby.Fs.State.{streq}
use kernel_hobby.Fs.Read.{fs_read}
use kernel_hobby.Fs.Mount.{fs_init}
use kernel_hobby.Fs.Mount.Laws.{boot}
use kernel_hobby.Mkfs.{SourceFile, name_field, last_block, image_blocks, image_of, mkfs}
use kernel_hobby.Mkfs.Layout.{FilesFit}
use kernel_hobby.Mkfs.Reads.{file, mkfs-fs_read}

-- "d/a", of three bytes, and "b/c", of one
abbrev two_files : List SourceFile
two_files =
    record { path = b'd' ∷ b'/' ∷ b'a' ∷ []; contents = 1 ∷ 2 ∷ 3 ∷ [] }
    ∷ record { path = b'b' ∷ b'/' ∷ b'c' ∷ []; contents = 7 ∷ [] }
    ∷ []

two_files-last_block : last_block datastart two_files ≡ 21
two_files-last_block = refl

two_files-FilesFit : FilesFit datastart two_files
two_files-FilesFit = (omega arith, omega arith, (omega arith, omega arith, omega arith))

two_files-mkfs : mkfs two_files ≡ some (image_blocks two_files)
unfolding mkfs
two_files-mkfs = refl

no_other : (j : ℕ) → j < 1 → streq (name_field (file two_files j).path) (b'c' ∷ []) ≡ false
unfolding streq fill
no_other zero h = refl
no_other (suc j) h = absurd (omega arith)

mkfs-fs_read_example :
    fs_read (fs_init (boot (image_of (image_blocks two_files)))) (b'c' ∷ []) 512 ≡ some (7 ∷ [])
mkfs-fs_read_example =
    mkfs-fs_read two_files (image_blocks two_files) 1 512 two_files-mkfs two_files-FilesFit
      (omega arith) (omega arith, tt) (omega arith) no_other (omega arith)
