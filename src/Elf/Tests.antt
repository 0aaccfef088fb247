-- ===== src/Elf/Tests.antt =====
-- The loader of src/elf.c on two images.
use kernel_hobby.Base.{ℕ, ◌≡◌, refl, true, List, [], ◌∷◌, ◌++◌, arith, replicate, get_or, subst}
use kernel_hobby.Elf.{le_bytes, read_ehdr, read_phdr, phdr, load_elf, load_from, copyb}
use kernel_hobby.Elf.Bounds.{IsSegment, load_elf-Outside}

-- an ELF header with one program header behind it
abbrev ehdr_bytes : List ℕ
ehdr_bytes =
    (0x7F ∷ b'E' ∷ b'L' ∷ b'F' ∷ [])
    ++ replicate 20 0
    ++ (0 ∷ 16 ∷ [])
    ++ replicate 6 0
    ++ (64 ∷ [])
    ++ replicate 21 0
    ++ (56 ∷ 0 ∷ 1 ∷ [])
    ++ replicate 7 0

-- a segment of three bytes at USERVA, of which two are in the file
abbrev small : ℕ → ℕ
small a =
    get_or
      (ehdr_bytes
        ++ (1 ∷ [])
        ++ replicate 7 0
        ++ (120 ∷ [])
        ++ replicate 8 0
        ++ (16 ∷ [])
        ++ replicate 14 0
        ++ (2 ∷ [])
        ++ replicate 7 0
        ++ (3 ∷ [])
        ++ replicate 15 0
        ++ (5 ∷ 6 ∷ []))
      a 0

-- the same with 8192 bytes in the file and none in memory
abbrev overlong : ℕ → ℕ
overlong a =
    get_or
      (ehdr_bytes
        ++ (1 ∷ [])
        ++ replicate 7 0
        ++ (120 ∷ [])
        ++ replicate 8 0
        ++ (16 ∷ [])
        ++ replicate 14 0
        ++ (0 ∷ 32 ∷ [])
        ++ replicate 22 0)
      a 7

small_loads : (load_elf small 0x87FFF000 (λ a. 0)).1 0x87FFF001 ≡ 6
unfolding load_elf load_from copyb read_ehdr read_phdr le_bytes
small_loads = refl

-- The loader accepts it, and writes behind the page.
overlong_loads :
    ((load_elf overlong 0x87FFE000 (λ a. 0)).0 ≡ true)
    × ((load_elf overlong 0x87FFE000 (λ a. 0)).1 0x87FFF000 ≡ 7)
unfolding load_elf load_from copyb read_ehdr read_phdr le_bytes
overlong_loads = (refl, refl)

load_elf-Outside_example : (load_elf small 0x87FFE000 (λ a. 9)).1 0x87FFF000 ≡ 9
unfolding read_ehdr read_phdr le_bytes
load_elf-Outside_example =
    load_elf-Outside small 0x87FFE000 (λ a. 9) 0x87FFF000 (omega arith)
      (λ j lt k.
        let first : 0 ≡ j = omega arith in
        subst (λ i. IsSegment (phdr small i)) first
          (record {
            start = omega arith;
            stored = omega arith;
            low = omega arith;
            short = omega arith;
          }))
      (omega arith)
