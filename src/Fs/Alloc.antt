-- ===== src/Fs/Alloc.antt =====
-- src/fs.c, the bitmap of blocks in use: build_bitmap and balloc_contig.
pub mod Laws
use kernel_hobby.Base.{
  ℕ, zero, suc, ◌+◌, ◌-◌, ◌/◌, ◌%◌, ◌^◌, Bool, true, false, List, [], ◌∷◌, Option, none, some, u32,
  ltb, leb, ◌==◌, ◌&&◌, update, get_or, if◌then◌else◌,
}
use kernel_hobby.Fs.Format.{Dirent, blank, bsize, dirblock, loghdr, logstart, logn, datastart}
use kernel_hobby.Fs.State.{maxblk}

-- `(size + BSIZE - 1) / BSIZE` on uint32
unfoldable pub blocks_of : ℕ → ℕ
blocks_of size = u32 (size + bsize - 1) / bsize

-- `if (b < MAXBLK) used[b] = v;` for `n` blocks from `b` on, a uint32. (`fs_create` leaves the test out:
-- its blocks come from `balloc_contig`, below MAXBLK.)
unfoldable pub mark : Bool → ℕ → ℕ → (ℕ → Bool) → ℕ → Bool
mark v b zero used = used
mark v b (suc n) used = mark v (u32 (b + 1)) n (if ltb b maxblk then update used b v else used)

-- the data blocks of the first `n` files of `dir`
unfoldable pub mark_files : ℕ → List Dirent → (ℕ → Bool) → ℕ → Bool
mark_files zero ds used = used
mark_files (suc n) [] used = used
mark_files (suc n) (d ∷ ds) used = mark_files n ds (mark true d.start (blocks_of d.size) used)

unfoldable pub build_bitmap : ℕ → List Dirent → ℕ → Bool
unfolding mark mark_files
build_bitmap nfiles dir =
    let none_used : ℕ → Bool = λ b. false in
    let meta = update (update (update none_used 0 true) dirblock true) loghdr true in
    mark_files nfiles dir (mark true logstart logn meta)

-- Are the `n` blocks from `b` on all free?
unfoldable pub run_free : (ℕ → Bool) → ℕ → ℕ → Bool
run_free used b zero = true
run_free used b (suc n) = if used b then false else run_free used (suc b) n

-- The loop of `balloc_contig`, with `f` rounds left.
unfoldable pub balloc_from : ℕ → (ℕ → Bool) → ℕ → ℕ → ℕ → Option ℕ
balloc_from zero used total n s = none
balloc_from (suc f) used total n s =
    let rest = balloc_from f used total n (suc s) in
    if leb (s + n) total && leb (s + n) maxblk
    then if run_free used s n then some s else rest
    else none

-- The loop ends before `s` reaches MAXBLK, so MAXBLK rounds are enough. `none` is the -1.
unfoldable pub balloc_contig : (ℕ → Bool) → ℕ → ℕ → Option ℕ
balloc_contig used total n =
    if n == 0 then some datastart else balloc_from maxblk used total n datastart
