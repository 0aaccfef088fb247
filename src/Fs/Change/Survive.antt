-- ===== src/Fs/Change/Survive.antt =====
-- Reading after fs_delete: the files that stay.
use kernel_hobby.Base.{
  ℕ, zero, suc, ◌+◌, ◌-◌, ◌/◌, ◌≤◌, ◌<◌, ◌≡◌, ◌≢◌, inl, inr, refl, sym, ◌∙◌, true, List, [], some,
  arith, get_or, ltb, if◌then◌else◌, Bool-cases,
}
use kernel_hobby.Fs.Format.{Dirent, blank, bsize}
use kernel_hobby.Fs.State.{Fs, streq}
use kernel_hobby.Fs.Read.{find, lookup, file_bytes, fs_read}
use kernel_hobby.Fs.Read.Names.{find-FirstNamed, lookup-lt}
use kernel_hobby.Fs.Read.Laws.{read_blocks_ext}
use kernel_hobby.Fs.Inv.{entry, IsMounted}
use kernel_hobby.Fs.Change.{delete_at}
use kernel_hobby.Fs.Change.Removal.{entry-before}
use kernel_hobby.Fs.Change.RoundTrip.{fs_read_lem}
use kernel_hobby.Fs.Change.Delete.{
  delete_at-IsMounted, dir-delete_at, nfiles-delete_at, data-delete_at,
}

-- where the file number `k` is when the one at `idx` has gone
abbrev after : ℕ → ℕ → ℕ
after idx k = if ltb idx k then k - 1 else k

-- Behind the gap every entry is one place further down.
find_behind :
    (n i : ℕ) (dir dir' : List Dirent) (name : List ℕ) (k : ℕ)
    → ((j : ℕ) → i ≤ j → j < i + n → get_or dir' j blank ≡ get_or dir (suc j) blank)
    → find n (suc i) dir name ≡ some k
    → find n i dir' name ≡ some (k - 1)
unfolding find
find_behind zero i dir dir' name k h e = ground arith
find_behind (suc n) i dir dir' name k h e =
    ground (
      arith,
      h i,
      find_behind n (suc i) dir dir' name k (λ j lo hi. h j (omega arith) (omega arith)),
    )

module _ (dir dir' : List Dirent) (name : List ℕ) (idx : ℕ) where
  find_over :
      (n i k : ℕ)
      → i ≤ idx
      → idx < i + suc n
      → ((j : ℕ) → j < idx → get_or dir' j blank ≡ get_or dir j blank)
      → ((j : ℕ) → idx ≤ j → j < i + n → get_or dir' j blank ≡ get_or dir (suc j) blank)
      → idx ≢ k
      → find (suc n) i dir name ≡ some k
      → find n i dir' name ≡ some (after idx k)
  unfolding find
  find_over zero i k le lt low high ne e = let here : idx ≡ i = omega arith in ground (arith, here)
  find_over (suc n) i k le lt low high ne e = elim (Bool-cases (ltb i idx)) [
    | inl early ↦ ground (
      arith,
      low i,
      find_over n (suc i) k (ground arith) (omega arith) low (λ j lo hi. high j lo (omega arith))
          ne,
    )
    | inr at_gap ↦
        let here : idx ≡ i = ground arith in
        elim (Bool-cases (streq (get_or dir i blank).name name)) [
          | inl named ↦ absurd (ne (here ∙ ground (arith, named)))
          | inr other ↦
              let later : find (suc n) (suc i) dir name ≡ some k = ground (arith, other) in
              let behind = find-FirstNamed (suc n) (suc i) dir name later in
              let moved : ltb idx k ≡ true = ground (arith, behind.lo, here) in
              rw moved (
                find_behind (suc n) i dir dir' name k (λ j lo hi. high j (omega (arith, here)) hi)
                  later)
        ]
  ]

module _ (s : Fs) (v : IsMounted s) (now : s.disk.history ≡ []) (idx : ℕ)
    (there : idx < s.nfiles) where
  abbrev done : Fs
  done = delete_at idx s

  entry-done :
      (i : ℕ) → i < s.nfiles - 1 → entry done.dir i ≡ entry s.dir (if ltb i idx then i else suc i)
  entry-done i lt =
      rw (dir-delete_at s v now idx there) (entry-before v.directory there i lt ∙ ground arith)

  lookup-after :
      (other : List ℕ) (k : ℕ)
      → idx ≢ k
      → lookup s other ≡ some k
      → lookup done other ≡ some (after idx k)
  unfolding lookup
  lookup-after other k ne found =
      let files : s.nfiles ≡ suc (s.nfiles - 1) = omega arith in
      rw (nfiles-delete_at s v now idx there) (
        find_over s.dir done.dir other idx (s.nfiles - 1) 0 k (omega arith) (omega arith)
          (λ j lt. entry-done j (omega arith) ∙ ground arith)
          (λ j lo hi. entry-done j (omega arith) ∙ ground arith) ne (rw files at found))

  bytes-after :
      (k : ℕ)
      → k < s.nfiles
      → file_bytes done.disk (entry s.dir k) ≡ file_bytes s.disk (entry s.dir k)
  unfolding file_bytes
  bytes-after k lt =
      let e = entry s.dir k in
      let place = v.directory.placed k lt in
      read_blocks_ext (e.size / bsize + 1) s.disk done.disk e.start e.size (omega (arith, place))
        (λ x lo hi. data-delete_at s v now idx there x (omega (arith, place.behind_log, lo)))

  -- Every name that is found, but not as the deleted file, reads as it did.
  pub reading-kept :
      (other : List ℕ) (max k : ℕ)
      → lookup s other ≡ some k
      → idx ≢ k
      → fs_read done other max ≡ fs_read s other max
  reading-kept other max k found ne =
      let lt = lookup-lt s other k found in
      let same : entry done.dir (after idx k) ≡ entry s.dir k =
        entry-done (after idx k) (ground arith) ∙ ground arith in
      fs_read_lem done other max (after idx k) (delete_at-IsMounted s v now idx there).up
        (lookup-after other k ne found)
      ∙ rw (same, bytes-after k lt) refl
      ∙ sym (fs_read_lem s other max k v.up found)
