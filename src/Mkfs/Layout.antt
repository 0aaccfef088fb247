-- ===== src/Mkfs/Layout.antt =====
-- tools/mkfs.c: where the files lie, and that no block belongs to two of them.
use kernel_hobby.Base.{
  ℕ, zero, suc, ◌+◌, ◌-◌, ◌/◌, ◌≤◌, ◌<◌, ◌^◌, ◌≡◌, ◌⊎◌, inl, inr, refl, ◌∙◌, ap, arith, List, [],
  ◌∷◌, ◌++◌, length, length-append, take, replicate, length-fill, u32, All,
}
use kernel_hobby.Base.Segments.{get_or-left}
use kernel_hobby.Fs.Format.{Dirent, blank, maxfiles, namelen, datastart}
use kernel_hobby.Fs.Format.RoundTrip.{IsEntry}
use kernel_hobby.Fs.State.{maxblk}
use kernel_hobby.Fs.Alloc.{blocks_of}
use kernel_hobby.Fs.Alloc.Laws.{blocks_of_lem}
use kernel_hobby.Fs.Inv.{entry, IsPlaced, IsDirectory}
use kernel_hobby.Mkfs.{SourceFile, base_name, next_block, dirents, last_block, directory}

abbrev pub nothing : SourceFile
nothing = record { path = []; contents = [] }

-- the blocks that a file takes
abbrev pub count : SourceFile → ℕ
count f = (length f.contents + 511) / 512

-- The files fit on the disk from block `cur` on: each is of less than 2 ^ 31 bytes and ends by block 8192.
abbrev pub FilesFit : ℕ → List SourceFile → Type 0
FilesFit cur [] = cur ≤ maxblk
FilesFit cur (f ∷ fs) =
    (length f.contents < 2 ^ 31) × (cur + count f ≤ maxblk) × FilesFit (cur + count f) fs

pub next_block_lem :
    (cur : ℕ) (f : SourceFile) → cur + count f ≤ maxblk → next_block cur f ≡ cur + count f
next_block_lem cur f h = omega arith

blocks_of_file_lem :
    (f : SourceFile) → length f.contents < 2 ^ 31 → blocks_of (u32 (length f.contents)) ≡ count f
blocks_of_file_lem f h =
    let e = blocks_of_lem (u32 (length f.contents)) (omega arith) in e ∙ omega arith

-- what the entry of a file is like
record Placed (cur : ℕ) (e : Dirent) : Type 0 where
  from : cur ≤ e.start
  inside : e.start + blocks_of e.size ≤ maxblk
  small : e.size ≤ 2 ^ 31

dirents-Placed :
    (cur : ℕ) (fs : List SourceFile) (i : ℕ)
    → FilesFit cur fs
    → i < length fs
    → Placed cur (entry (dirents cur fs) i)
dirents-Placed cur [] i fit lt = absurd (omega arith)
dirents-Placed cur (f ∷ fs) zero (small, inside, fit) lt = record {
  from = omega arith;
  inside = omega (arith, blocks_of_file_lem f small);
  small = omega arith;
}
dirents-Placed cur (f ∷ fs) (suc i) (small, inside, fit) lt =
    let rest = dirents-Placed (cur + count f) fs i fit (omega arith) in
    rw (next_block_lem cur f inside)
      record { from = omega (arith, rest.from); inside = rest.inside; small = rest.small }

dirents-ordered :
    (cur : ℕ) (fs : List SourceFile) (i j : ℕ)
    → FilesFit cur fs
    → i < j
    → j < length fs
    → (entry (dirents cur fs) i).start + blocks_of (entry (dirents cur fs) i).size
      ≤ (entry (dirents cur fs) j).start
dirents-ordered cur [] i j fit h lt = absurd (omega arith)
dirents-ordered cur (f ∷ fs) i zero fit h lt = absurd (omega arith)
dirents-ordered cur (f ∷ fs) zero (suc j) (small, inside, fit) h lt =
    let later = dirents-Placed (cur + count f) fs j fit (omega arith) in
    rw (next_block_lem cur f inside) (omega (arith, blocks_of_file_lem f small, later.from))
dirents-ordered cur (f ∷ fs) (suc i) (suc j) (small, inside, fit) h lt =
    rw (next_block_lem cur f inside)
      (dirents-ordered (cur + count f) fs i j fit (omega arith) (omega arith))

length-dirents : (cur : ℕ) (fs : List SourceFile) → length (dirents cur fs) ≡ length fs
length-dirents cur [] = refl
length-dirents cur (f ∷ fs) = ap suc (length-dirents (next_block cur f) fs)

pub last_block_lem :
    (cur : ℕ) (fs : List SourceFile)
    → FilesFit cur fs
    → last_block cur fs ≤ maxblk × cur ≤ last_block cur fs
last_block_lem cur [] fit = (fit, omega arith)
last_block_lem cur (f ∷ fs) (small, inside, fit) =
    let (hi, lo) = last_block_lem (cur + count f) fs fit in
    rw (next_block_lem cur f inside) (hi, omega arith)

dirents-IsEntry :
    (cur : ℕ) (fs : List SourceFile) → FilesFit cur fs → cur ≤ maxblk → All IsEntry (dirents cur fs)
dirents-IsEntry cur [] fit h = tt
dirents-IsEntry cur (f ∷ fs) (small, inside, fit) h = (
  record {
    name = length-fill namelen (take (namelen - 1) (base_name f.path));
    size = omega arith;
    start = omega arith;
  },
  rw (next_block_lem cur f inside) (dirents-IsEntry (cur + count f) fs fit inside),
)

blanks-IsEntry : (n : ℕ) → All IsEntry (replicate n blank)
blanks-IsEntry zero = tt
blanks-IsEntry (suc n) =
    (record { name = refl; size = omega arith; start = omega arith }, blanks-IsEntry n)

All-append : (ds es : List Dirent) → All IsEntry ds → All IsEntry es → All IsEntry (ds ++ es)
All-append [] es p q = q
All-append (d ∷ ds) es (p, ps) q = (p, All-append ds es ps q)

length-replicate : (n : ℕ) (d : Dirent) → length (replicate n d) ≡ n
length-replicate zero d = refl
length-replicate (suc n) d = ap suc (length-replicate n d)

-- the entry of a file in the whole directory
pub directory_entry :
    (files : List SourceFile) (i : ℕ)
    → i < length files
    → entry (directory files) i ≡ entry (dirents datastart files) i
directory_entry files i lt =
    get_or-left blank (dirents datastart files) (replicate (maxfiles - length files) blank) i
      (omega (arith, length-dirents datastart files))

compare_cases : (i j : ℕ) → (i ≡ j) ⊎ ((i < j) ⊎ (j < i))
compare_cases i j = ground arith

-- The directory is well-formed.
pub directory-IsDirectory :
    (files : List SourceFile)
    → FilesFit datastart files
    → length files ≤ maxfiles
    → IsDirectory (directory files) (length files)
directory-IsDirectory files fit few =
    let ds = dirents datastart files in
    let blanks = replicate (maxfiles - length files) blank in
    let placed : (i : ℕ) → i < length files → IsPlaced (entry (directory files) i) = λ i lt.
      let p = dirents-Placed datastart files i fit lt in
      rw (directory_entry files i lt)
        record { small = p.small; behind_log = p.from; within_map = p.inside } in
    let order : (i j : ℕ)
        → i < j
        → j < length files
        → (entry (directory files) i).start + blocks_of (entry (directory files) i).size
          ≤ (entry (directory files) j).start =
      λ i j h lt.
        rw (directory_entry files i (omega arith), directory_entry files j lt)
          (dirents-ordered datastart files i j fit h lt) in
    record {
      entries =
          All-append ds blanks (dirents-IsEntry datastart files fit (omega arith))
            (blanks-IsEntry (maxfiles - length files));
      all_slots =
          length-append ds blanks
          ∙ omega (
            arith,
            length-dirents datastart files,
            length-replicate (maxfiles - length files) blank,
          );
      few = few;
      placed = placed;
      apart = λ i j x lt lt' own own'. elim (compare_cases i j) [
        | inl same ↦ same
        | inr (inl before) ↦ absurd (ground (arith, order i j before lt'))
        | inr (inr after) ↦ absurd (ground (arith, order j i after lt))
      ];
    }
