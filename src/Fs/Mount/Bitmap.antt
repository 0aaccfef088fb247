-- ===== src/Fs/Mount/Bitmap.antt =====
-- src/fs.c: the bitmap that build_bitmap makes says which blocks are in use.
use kernel_hobby.Base.{
  ℕ, zero, suc, ◌+◌, ◌≤◌, ◌<◌, ◌≡◌, ◌⊎◌, inl, inr, Bool, true, false, List, [], ◌∷◌, arith, length,
  update, ltb, Bool-cases,
}
use kernel_hobby.Fs.Format.{Dirent, dirblock, loghdr, logstart, logn, datastart}
use kernel_hobby.Fs.State.{maxblk}
use kernel_hobby.Fs.Alloc.{mark, mark_files, build_bitmap, blocks_of}
use kernel_hobby.Fs.Alloc.Laws.{within, mark_lem}
use kernel_hobby.Fs.Inv.{entry, Owns, IsDirectory, IsBitmap}

-- the files lie within the bitmap
abbrev Fit : List Dirent → ℕ → Type 0
Fit ds n = (i : ℕ) → i < n → (entry ds i).start + blocks_of (entry ds i).size ≤ maxblk

Fit-rest : (d : Dirent) (ds : List Dirent) (n : ℕ) → Fit (d ∷ ds) (suc n) → Fit ds n
Fit-rest d ds n h i lt = h (suc i) (omega arith)

mark_files_keep :
    (n : ℕ) (ds : List Dirent) (used : ℕ → Bool) (x : ℕ)
    → Fit ds n
    → used x ≡ true
    → mark_files n ds used x ≡ true
unfolding mark_files
mark_files_keep zero ds used x fit h = h
mark_files_keep (suc n) [] used x fit h = h
mark_files_keep (suc n) (d ∷ ds) used x fit h =
    let marked = mark_lem true d.start (blocks_of d.size) used x (fit 0 (omega arith)) in
    mark_files_keep n ds (mark true d.start (blocks_of d.size) used) x (Fit-rest d ds n fit)
      (ground arith)

mark_files_own :
    (n : ℕ) (ds : List Dirent) (used : ℕ → Bool) (i x : ℕ)
    → Fit ds n
    → i < n
    → n ≤ length ds
    → Owns (entry ds i) x
    → mark_files n ds used x ≡ true
unfolding mark_files
mark_files_own zero ds used i x fit lt few h = absurd (omega arith)
mark_files_own (suc n) [] used i x fit lt few h = absurd (omega arith)
mark_files_own (suc n) (d ∷ ds) used zero x fit lt few h =
    let marked = mark_lem true d.start (blocks_of d.size) used x (fit 0 (omega arith)) in
    mark_files_keep n ds (mark true d.start (blocks_of d.size) used) x (Fit-rest d ds n fit)
      (ground arith)
mark_files_own (suc n) (d ∷ ds) used (suc i) x fit lt few h =
    mark_files_own n ds (mark true d.start (blocks_of d.size) used) i x (Fit-rest d ds n fit)
      (omega arith) (omega arith) h

mark_files_from :
    (n : ℕ) (ds : List Dirent) (used : ℕ → Bool) (x : ℕ)
    → Fit ds n
    → n ≤ length ds
    → mark_files n ds used x ≡ true
    → (used x ≡ true) ⊎ ((i : ℕ) × (i < n) × Owns (entry ds i) x)
unfolding mark_files
mark_files_from zero ds used x fit few h = inl h
mark_files_from (suc n) [] used x fit few h = inl h
mark_files_from (suc n) (d ∷ ds) used x fit few h =
    let marked = mark_lem true d.start (blocks_of d.size) used x (fit 0 (omega arith)) in
    elim (mark_files_from n ds (mark true d.start (blocks_of d.size) used) x (Fit-rest d ds n fit)
      (omega arith) h) [
        | inr (i, lt, own) ↦ inr (suc i, omega arith, own)
        | inl here ↦ elim (Bool-cases (within d.start (blocks_of d.size) x)) [
          | inl own ↦ inr (0, omega arith, own)
          | inr other ↦ inl (ground arith)
        ]
      ]

-- the blocks before the data
abbrev meta : ℕ → Bool
meta =
    mark true logstart logn (update (update (update (λ b. false) 0 true) dirblock true) loghdr true)

meta_lem : (x : ℕ) → meta x ≡ ltb x datastart
meta_lem x =
    let log =
      mark_lem true logstart logn
        (update (update (update (λ b. false) 0 true) dirblock true) loghdr true) x (omega arith) in
    ground (arith, log)

pub build_bitmap-IsBitmap :
    (dir : List Dirent) (n : ℕ) → IsDirectory dir n → IsBitmap dir n (build_bitmap n dir)
unfolding build_bitmap
build_bitmap-IsBitmap dir n v =
    let fit : Fit dir n = λ i lt. (v.placed i lt).within_map in
    let few : n ≤ length dir = omega (arith, v.few, v.all_slots) in
    record {
      meta = λ x lt. mark_files_keep n dir meta x fit (ground (arith, meta_lem x));
      marked = λ i x lt own. mark_files_own n dir meta i x fit lt few own;
      owned = λ x h data_block. elim (mark_files_from n dir meta x fit few h) [
        | inl m ↦ absurd (ground (arith, meta_lem x))
        | inr found ↦ found
      ];
    }
