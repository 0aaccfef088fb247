-- ===== src/Fs/Read/Pages.antt =====
-- What fs_read_page puts in a page: the bytes of the file, each at its place.
use kernel_hobby.Base.{
  ℕ, zero, suc, ◌+◌, ◌-◌, ◌*◌, ◌/◌, ◌%◌, ◌^◌, ◌≤◌, ◌<◌, ◌≡◌, refl, ◌∙◌, true, List, [], ◌∷◌, ◌++◌,
  arith, length, take, fill, length-fill, get_or, u32, ltb, ◌&&◌, if◌then◌else◌, Bool-cases, inl,
  inr,
}
use kernel_hobby.Fs.Disk.{Image, Disk}
use kernel_hobby.Fs.Read.{page_rounds, fs_read_page}

-- the byte number `q` of a file of `size` bytes that starts at a block of the disk, and 0 behind its end
abbrev pub file_byte : Image → ℕ → ℕ → ℕ → ℕ
file_byte m start size q = if ltb q size then get_or (m (start + q / 512)) (q % 512) 0 else 0

get_or-nil : (j : ℕ) → get_or {A = ℕ} [] j 0 ≡ 0
get_or-nil zero = refl
get_or-nil (suc j) = refl

get_or-fill :
    (n : ℕ) (xs : List ℕ) (j : ℕ) → get_or (fill n xs) j 0 ≡ (if ltb j n then get_or xs j 0 else 0)
unfolding fill
get_or-fill zero xs j = ground (arith, get_or-nil j)
get_or-fill (suc n) [] zero = ground arith
get_or-fill (suc n) [] (suc j) = ground (arith, get_or-fill n [] j, get_or-nil j)
get_or-fill (suc n) (x ∷ xs) zero = ground arith
get_or-fill (suc n) (x ∷ xs) (suc j) = ground (arith, get_or-fill n xs j)

get_or-take :
    (n : ℕ) (xs : List ℕ) (j : ℕ) → get_or (take n xs) j 0 ≡ (if ltb j n then get_or xs j 0 else 0)
get_or-take zero xs j = ground (arith, get_or-nil j)
get_or-take (suc n) [] j = ground (arith, get_or-nil j)
get_or-take (suc n) (x ∷ xs) zero = ground arith
get_or-take (suc n) (x ∷ xs) (suc j) = ground (arith, get_or-take n xs j)

get_or-append :
    (xs ys : List ℕ) (j : ℕ)
    → get_or (xs ++ ys) j 0
      ≡ (if ltb j (length xs) then get_or xs j 0 else get_or ys (j - length xs) 0)
get_or-append [] ys j = ground arith
get_or-append (x ∷ xs) ys zero = ground arith
get_or-append (x ∷ xs) ys (suc j) = ground (arith, get_or-append xs ys j)

-- The rounds put the block number `j / 512` at `j`, up to the end of the file.
page_rounds_lem :
    (f : ℕ) (d : Disk) (blk size offset done j : ℕ)
    → done + 512 * f ≤ 4096
    → offset + 4096 < 2 ^ 32
    → blk + f < 2 ^ 32
    → get_or (page_rounds f d blk size offset done) j 0 ≡ (
        if ltb j (512 * f) && ltb (offset + done + j) size
        then get_or (d.image (blk + j / 512)) (j % 512) 0
        else 0)
unfolding page_rounds
page_rounds_lem zero d blk size offset done j few word blocks = ground (arith, get_or-nil j)
page_rounds_lem (suc f) d blk size offset done j few word blocks =
    let n = if ltb 512 (size - (offset + done)) then 512 else size - (offset + done) in
    let rest = page_rounds f d (blk + 1) size offset (done + 512) in
    let block = fill 512 (take n (d.image blk)) in
    let here : u32 (offset + done) ≡ offset + done = omega arith in
    let next : u32 (blk + 1) ≡ blk + 1 = omega arith in
    let page : ltb done 4096 ≡ true = ground arith in
    rw (here, next, page)
      (elim (Bool-cases (ltb (offset + done) size)) [
        | inl more ↦ rw more (
            get_or-append block rest j
            ∙ rw (length-fill 512 (take n (d.image blk))) (elim (Bool-cases (ltb j 512)) [
              | inl first ↦
                  let low : j / 512 ≡ 0 = ground arith in
                  let same : j % 512 ≡ j = ground arith in
                  rw (first, low, same)
                    (get_or-fill 512 (take n (d.image blk)) j
                      ∙ ground (arith, get_or-take n (d.image blk) j))
              | inr later ↦
                  let which : blk + 1 + (j - 512) / 512 ≡ blk + j / 512 = ground arith in
                  let place : (j - 512) % 512 ≡ j % 512 = ground arith in
                  rw later (
                    page_rounds_lem f d (blk + 1) size offset (done + 512) (j - 512) (omega arith)
                      word (omega arith)
                    ∙ rw (which, place) (ground arith))
            ]))
        | inr ends ↦ rw ends (ground (arith, get_or-nil j))
      ])

-- Byte `j` of the page at an offset is that byte of the file.
pub fs_read_page-file_byte :
    (d : Disk) (start size offset j : ℕ)
    → offset % 512 ≡ 0
    → offset + 4096 < 2 ^ 32
    → start + offset / 512 + 8 < 2 ^ 32
    → get_or (fs_read_page d start size offset) j 0
      ≡ (if ltb j 4096 then file_byte d.image start size (offset + j) else 0)
unfolding fs_read_page
fs_read_page-file_byte d start size offset j aligned word blocks =
    let first : u32 (start + offset / 512) ≡ start + offset / 512 = omega arith in
    let which : start + offset / 512 + j / 512 ≡ start + (offset + j) / 512 = omega arith in
    let place : (offset + j) % 512 ≡ j % 512 = omega arith in
    rw first (
      get_or-fill 4096 (page_rounds 8 d (start + offset / 512) size offset 0) j
      ∙ rw
          (
            page_rounds_lem 8 d (start + offset / 512) size offset 0 j (omega arith) word blocks,
            which,
            place,
          )
          (ground arith))
