-- ===== src/Fs/Alloc/Laws.antt =====
-- What the bitmap functions do to each block, and that the search for free blocks is right.
use kernel_hobby.Base.{
  ℕ, zero, suc, ◌+◌, ◌/◌, ◌≤◌, ◌<◌, ◌^◌, ◌≡◌, inl, inr, refl, Bool, true, false, none, some, arith,
  ltb, leb, ◌&&◌, if◌then◌else◌, u32, update, Bool-cases, ℕ_discrete,
}
use kernel_hobby.Fs.Format.{datastart}
use kernel_hobby.Fs.State.{maxblk}
use kernel_hobby.Fs.Alloc.{blocks_of, mark, run_free, balloc_from, balloc_contig}

-- `x` is one of the `n` blocks from `b` on.
abbrev pub within : ℕ → ℕ → ℕ → Bool
within b n x = leb b x && ltb x (b + n)

-- Marking `n` blocks within the bitmap sets these and no other.
pub mark_lem :
    (v : Bool) (b n : ℕ) (used : ℕ → Bool) (x : ℕ)
    → b + n ≤ maxblk
    → mark v b n used x ≡ (if within b n x then v else used x)
unfolding mark
mark_lem v b zero used x h = ground arith
mark_lem v b (suc n) used x h =
    ground (arith, mark_lem v (u32 (b + 1)) n (if ltb b maxblk then update used b v else used) x)

-- `run_free` decides that the blocks are free.
pub run_free_sound :
    (used : ℕ → Bool) (b n x : ℕ) → run_free used b n ≡ true → b ≤ x → x < b + n → used x ≡ false
unfolding run_free
run_free_sound used b zero x h le lt = absurd (omega arith)
run_free_sound used b (suc n) x h le lt = ground (arith, run_free_sound used (suc b) n x)

pub run_free_complete :
    (used : ℕ → Bool) (b n : ℕ)
    → ((x : ℕ) → b ≤ x → x < b + n → used x ≡ false)
    → run_free used b n ≡ true
unfolding run_free
run_free_complete used b zero h = refl
run_free_complete used b (suc n) h =
    rw (h b (omega arith) (omega arith))
      (run_free_complete used (suc b) n (λ x le lt. h x (omega arith) (omega arith)))

-- What the search finds is free and within the disk, and no earlier place is free.
pub record Found (used : ℕ → Bool) (total n s r : ℕ) : Type 0 where
  pub from : s ≤ r
  pub within_total : r + n ≤ total
  pub within_map : r + n ≤ maxblk
  pub free : run_free used r n ≡ true
  pub first : (q : ℕ) → s ≤ q → q < r → run_free used q n ≡ false

balloc_from-Found :
    (f : ℕ) (used : ℕ → Bool) (total n s : ℕ) {r : ℕ}
    → balloc_from f used total n s ≡ some r
    → Found used total n s r
unfolding balloc_from
balloc_from-Found zero used total n s h = absurd (ground arith)
balloc_from-Found (suc f) used total n s {r} h = elim (Bool-cases (run_free used s n)) [
  | inl open_run ↦ ground (arith, open_run)
  | inr busy ↦
      let later : balloc_from f used total n (suc s) ≡ some r = ground arith in
      let found = balloc_from-Found f used total n (suc s) later in
      record {
        from = omega (arith, found.from);
        within_total = found.within_total;
        within_map = found.within_map;
        free = found.free;
        first = λ q le lt. elim (ℕ_discrete q s) [
          | yes e ↦ rw e busy
          | no ne ↦ found.first q (omega arith) lt
        ];
      }
]

balloc_from-none :
    (f : ℕ) (used : ℕ → Bool) (total n s : ℕ)
    → balloc_from f used total n s ≡ none
    → maxblk < s + f
    → (q : ℕ) → s ≤ q
    → q + n ≤ total
    → q + n ≤ maxblk
    → run_free used q n ≡ false
unfolding balloc_from
balloc_from-none zero used total n s h e q le a b = absurd (omega arith)
balloc_from-none (suc f) used total n s h e q le a b = elim (Bool-cases (run_free used s n)) [
  | inl open_run ↦ ground (arith, open_run)
  | inr busy ↦
      let later : balloc_from f used total n (suc s) ≡ none = ground arith in
      elim (ℕ_discrete q s) [
        | yes e' ↦ rw e' busy
        | no ne ↦ balloc_from-none f used total n (suc s) later (omega arith) q (omega arith) a b
      ]
]

-- For a file of at least one block, `balloc_contig` returns the first run of that many free blocks
-- among the data blocks of the disk.
pub balloc_contig-Found :
    (used : ℕ → Bool) (total n : ℕ) {r : ℕ}
    → 0 < n
    → balloc_contig used total n ≡ some r
    → Found used total n datastart r
unfolding balloc_contig
balloc_contig-Found used total n pos h =
    balloc_from-Found maxblk used total n datastart (ground arith)

-- It fails only if there is none.
pub balloc_contig-none :
    (used : ℕ → Bool) (total n : ℕ)
    → balloc_contig used total n ≡ none
    → (q : ℕ) → datastart ≤ q
    → q + n ≤ total
    → q + n ≤ maxblk
    → run_free used q n ≡ false
unfolding balloc_contig
balloc_contig-none used total n h q le a b =
    balloc_from-none maxblk used total n datastart (ground arith) (omega arith) q le a b

-- The number of blocks of a file whose size is an int: the size divided by 512, rounded up.
pub blocks_of_lem : (size : ℕ) → size ≤ 2 ^ 31 → blocks_of size ≡ (size + 511) / 512
unfolding blocks_of
blocks_of_lem size h = omega arith
