-- ===== src/Fs/Change/Removal.antt =====
-- What fs_delete does to the directory and the bitmap in memory.
use kernel_hobby.Base.{
  ℕ, zero, suc, ◌+◌, ◌-◌, ◌≤◌, ◌<◌, ◌≡◌, ◌≢◌, inl, inr, refl, ◌∙◌, Bool, true, false, List, arith,
  length, length-set, get_or-set_self, get_or-set_ne, set, All, ltb, leb, if◌then◌else◌, ◌&&◌,
  Bool-cases,
}
use kernel_hobby.Fs.Format.{Dirent, blank}
use kernel_hobby.Fs.Format.RoundTrip.{IsEntry}
use kernel_hobby.Fs.Alloc.{blocks_of, mark}
use kernel_hobby.Fs.Alloc.Laws.{within, mark_lem}
use kernel_hobby.Fs.Inv.{entry, Owns, IsPlaced, IsDirectory, IsBitmap}
use kernel_hobby.Fs.Change.{shift_down}
use kernel_hobby.Fs.Change.Memory.{All-set, IsEntry-entry, IsEntry-blank}

length-shift_down : (n j : ℕ) (dir : List Dirent) → length (shift_down n j dir) ≡ length dir
unfolding shift_down
length-shift_down zero j dir = refl
length-shift_down (suc n) j dir =
    length-shift_down n (suc j) (set dir j (entry dir (suc j)))
    ∙ length-set dir j (entry dir (suc j))

All-shift_down : (n j : ℕ) (dir : List Dirent) → All IsEntry dir → All IsEntry (shift_down n j dir)
unfolding shift_down
All-shift_down zero j dir h = h
All-shift_down (suc n) j dir h =
    All-shift_down n (suc j) (set dir j (entry dir (suc j)))
      (All-set dir j (entry dir (suc j)) h (IsEntry-entry dir (suc j) h))

-- The entries from `j` on come from one place further up.
entry-shift_down :
    (n j : ℕ) (dir : List Dirent) (i : ℕ)
    → j + n ≤ length dir
    → entry (shift_down n j dir) i
      ≡ (if leb j i && ltb i (j + n) then entry dir (i + 1) else entry dir i)
unfolding shift_down
entry-shift_down zero j dir i h = ground arith
entry-shift_down (suc n) j dir i h = ground (
  arith,
  entry-shift_down n (suc j) (set dir j (entry dir (suc j))) i,
  length-set dir j (entry dir (suc j)),
  get_or-set_self dir j (entry dir (suc j)) blank,
  get_or-set_ne dir j i (entry dir (suc j)) blank,
  get_or-set_ne dir j (i + 1) (entry dir (suc j)) blank,
)

-- The directory without the file number `idx`, one slot shorter.
module _ {dir : List Dirent} {n : ℕ} (d : IsDirectory dir n) {idx : ℕ} (there : idx < n) where
  -- where the file number `i` of the new directory was
  abbrev pub before : ℕ → ℕ
  before i = if leb idx i then i + 1 else i

  pub entry-before :
      (i : ℕ)
      → i < n - 1
      → entry (set (shift_down (n - 1 - idx) idx dir) (n - 1) blank) i ≡ entry dir (before i)
  entry-before i lt = ground (
    arith,
    get_or-set_ne (shift_down (n - 1 - idx) idx dir) (n - 1) i blank blank,
    entry-shift_down (n - 1 - idx) idx dir i,
    d.all_slots,
    d.few,
  )

  removed-IsPlaced :
      (i : ℕ)
      → i < n - 1
      → IsPlaced (entry (set (shift_down (n - 1 - idx) idx dir) (n - 1) blank) i)
  removed-IsPlaced i lt = rw (entry-before i lt) (d.placed (before i) (ground arith))

  removed-apart :
      (i j x : ℕ)
      → i < n - 1
      → j < n - 1
      → Owns (entry (set (shift_down (n - 1 - idx) idx dir) (n - 1) blank) i) x
      → Owns (entry (set (shift_down (n - 1 - idx) idx dir) (n - 1) blank) j) x
      → i ≡ j
  removed-apart i j x li lj oi oj =
      let same =
        d.apart (before i) (before j) x (ground arith) (ground arith) (rw (entry-before i li) at oi)
          (rw (entry-before j lj) at oj) in
      ground arith

  pub removed-IsDirectory :
      IsDirectory (set (shift_down (n - 1 - idx) idx dir) (n - 1) blank) (n - 1)
  removed-IsDirectory = record {
    entries =
        All-set (shift_down (n - 1 - idx) idx dir) (n - 1) blank
          (All-shift_down (n - 1 - idx) idx dir d.entries) IsEntry-blank;
    all_slots =
        length-set (shift_down (n - 1 - idx) idx dir) (n - 1) blank
        ∙ length-shift_down (n - 1 - idx) idx dir
        ∙ d.all_slots;
    few = omega (arith, d.few);
    placed = removed-IsPlaced;
    apart = removed-apart;
  }

  -- Freeing the blocks of the file keeps the bitmap exact.
  pub removed-IsBitmap :
      {used : ℕ → Bool}
      → IsBitmap dir n used
      → IsBitmap
          (set (shift_down (n - 1 - idx) idx dir) (n - 1) blank)
          (n - 1)
          (mark false (entry dir idx).start (blocks_of (entry dir idx).size) used)
  removed-IsBitmap {used} b = record {
    meta = λ x lt. ground (arith, freed x, b.meta x lt, place);
    marked = λ i x lt o.
        let own : Owns (entry dir (before i)) x = rw (entry-before i lt) at o in
        elim (Bool-cases (within (entry dir idx).start (blocks_of (entry dir idx).size) x)) [
          | inl mine ↦
              absurd (ground (arith, d.apart idx (before i) x there (ground arith) mine own))
          | inr other ↦ rw (freed x, other) (b.marked (before i) x (ground arith) own)
        ];
    owned = λ x u le.
        elim (Bool-cases (within (entry dir idx).start (blocks_of (entry dir idx).size) x)) [
          | inl mine ↦ ground (arith, freed x)
          | inr other ↦
              let was : used x ≡ true = ground (arith, freed x) in
              let (j, lt, own) = b.owned x was le in
              let i : ℕ = if ltb idx j then j - 1 else j in
              let ne : j ≢ idx = (λ e. ground arith) in
              let back : before i ≡ j = ground arith in
              let below : i < n - 1 = ground arith in
              (i, below, rw (entry-before i below, back) own)
        ];
  }
    where
      place : IsPlaced (entry dir idx)
      place = d.placed idx there

      freed :
          (x : ℕ)
          → mark false (entry dir idx).start (blocks_of (entry dir idx).size) used x ≡ (
              if within (entry dir idx).start (blocks_of (entry dir idx).size) x
              then false
              else used x)
      freed x =
          mark_lem false (entry dir idx).start (blocks_of (entry dir idx).size) used x
            place.within_map
