-- ===== src/Fs/Files.antt =====
-- What fs_create and fs_delete do to the files, as a reader sees them.
use kernel_hobby.Base.{
  ℕ, ◌+◌, ◌<◌, ◌≤◌, ◌^◌, ◌≡◌, Bool, true, false, List, [], none, some, arith, length, Option-cases,
  inl, inr, Bool-cases, ◌↔◌, ap,
}
use kernel_hobby.Fs.Format.{namelen, maxfiles, logn, datastart}
use kernel_hobby.Fs.State.{Fs, maxblk}
use kernel_hobby.Fs.Alloc.{blocks_of, balloc_contig}
use kernel_hobby.Fs.Alloc.Laws.{
  balloc_contig-Found, balloc_contig-none, run_free_complete, run_free_sound,
}
use kernel_hobby.Fs.Read.{lookup, fs_read}
use kernel_hobby.Fs.Inv.{IsMounted}
use kernel_hobby.Fs.Change.{fs_create, fs_delete}
use kernel_hobby.Fs.Change.Create.{fs_create-Creates}
use kernel_hobby.Fs.Change.CreateInv.{create_at-IsMounted}
use kernel_hobby.Fs.Change.RoundTrip.{IsText, reading-new, reading-old, lookup-long}
use kernel_hobby.Fs.Read.Names.{lookup-lt}
use kernel_hobby.Fs.Change.Delete.{delete_at-IsMounted}

-- A call of `fs_create` that returns -1 changes nothing, on the disk or in memory.
create_failed :
    (name contents : List ℕ) (s : Fs)
    → (fs_create name contents s).0 ≡ false
    → (fs_create name contents s).1 ≡ s
unfolding fs_create
create_failed name contents s h = ground arith

-- `fs_create` returns 0 on a mounted file system of at most MAXBLK blocks if there is a slot, the name
-- is new, the file fits in one transaction, and from some data block `q` on so many blocks are free
-- as the contents need.
create_succeeds :
    (name contents : List ℕ) (s : Fs) (q : ℕ)
    → s.mounted ≡ true
    → s.nfiles < maxfiles
    → lookup s name ≡ none
    → blocks_of (length contents) + 2 ≤ logn
    → datastart ≤ q
    → q + blocks_of (length contents) ≤ s.total_blocks
    → s.total_blocks ≤ maxblk
    → ((x : ℕ) → q ≤ x → x < q + blocks_of (length contents) → s.used x ≡ false)
    → (fs_create name contents s).0 ≡ true
unfolding fs_create
create_succeeds name contents s q up slot absent fits lo hi total free =
    elim (Option-cases (balloc_contig s.used s.total_blocks (blocks_of (length contents)))) [
      | inl full ↦ absurd (
          ground (
            arith,
            balloc_contig-none s.used s.total_blocks (blocks_of (length contents)) full q lo hi
                (omega arith),
            run_free_complete s.used q (blocks_of (length contents)) free,
          ))
      | inr (r, e) ↦ ground (arith, e)
    ]

-- What `fs_create` asks for, with the file from the block `q` on: a slot, a new name, a file that fits in one
-- transaction, and free data blocks.
pub record CanCreate (name contents : List ℕ) (s : Fs) (q : ℕ) : Type 0 where
  pub slot : s.nfiles < maxfiles
  pub absent : lookup s name ≡ none
  pub fits : blocks_of (length contents) + 2 ≤ logn
  pub behind_log : datastart ≤ q
  pub on_disk : q + blocks_of (length contents) ≤ s.total_blocks
  pub free : (x : ℕ) → q ≤ x → x < q + blocks_of (length contents) → s.used x ≡ false

created-CanCreate :
    (name contents : List ℕ) (s : Fs)
    → 0 < blocks_of (length contents)
    → (fs_create name contents s).0 ≡ true
    → (q : ℕ) × CanCreate name contents s q
unfolding fs_create
created-CanCreate name contents s pos h =
    let n = blocks_of (length contents) in
    elim (Option-cases (balloc_contig s.used s.total_blocks n)) [
      | inl full ↦ absurd (ground (arith, full))
      | inr (q, e) ↦
          let found = balloc_contig-Found s.used s.total_blocks n pos e in
          (
            q,
            record {
              slot = ground arith;
              absent = ground arith;
              fits = ground arith;
              behind_log = found.from;
              on_disk = found.within_total;
              free = λ x lo hi. run_free_sound s.used q n x found.free lo hi;
            },
          )
    ]

-- On a mounted file system of at most MAXBLK blocks, with contents that are not empty: `fs_create` returns -1 and
-- changes nothing, on the disk or in memory, exactly when there is no slot, the name is taken, the file does
-- not fit in one transaction, or no run of data blocks on the disk that is long enough is free.
pub create_refused :
    (name contents : List ℕ) (s : Fs)
    → s.mounted ≡ true
    → s.total_blocks ≤ maxblk
    → 0 < blocks_of (length contents)
    → ((q : ℕ) → ¬ CanCreate name contents s q) ↔ (fs_create name contents s ≡ (false, s))
create_refused name contents s up total pos = (
  λ none_can. elim (Bool-cases (fs_create name contents s).0) [
    | inl done ↦
        let (q, can) = created-CanCreate name contents s pos done in absurd (none_can q can)
    | inr failed ↦ λ i. (failed i, create_failed name contents s failed i)
  ],
  λ failed q can.
      let done =
        create_succeeds name contents s q up can.slot can.absent can.fits can.behind_log can.on_disk
          total can.free in
      absurd (ground (arith, ap (λ r. r.0) failed, done)),
)

result_true : (r : Bool × Fs) → r.0 ≡ true → r ≡ (true, r.1)
result_true r h = λ i. (h i, r.1)

-- `fs_create` keeps the invariant of a mounted file system, whether it succeeds or not, for contents of
-- less than 2 ^ 31 bytes and with the record of the disk's images empty at the start: no block
-- belongs to two files, the bitmap is exact, and the disk holds the directory and superblock of memory.
pub create-IsMounted :
    (name contents : List ℕ) (s : Fs)
    → IsMounted s
    → s.disk.history ≡ []
    → length contents < 2 ^ 31
    → IsMounted (fs_create name contents s).1
create-IsMounted name contents s v now int_size = elim (Bool-cases (fs_create name contents s).0) [
  | inl done ↦
      let (start, c, e) =
        fs_create-Creates name contents s (result_true (fs_create name contents s) done) in
      rw e (create_at-IsMounted name contents s start int_size v now c)
  | inr failed ↦ rw (create_failed name contents s failed) v
]

-- `fs_delete` keeps the invariant of a mounted file system, whether it succeeds or not, with the record
-- of the disk's images empty at the start.
pub delete-IsMounted :
    (name : List ℕ) (s : Fs) → IsMounted s → s.disk.history ≡ [] → IsMounted (fs_delete name s).1
unfolding fs_delete lookup
delete-IsMounted name s v now = elim (Option-cases (lookup s name)) [
  | inl gone ↦ rw (v.up, gone) v
  | inr (i, e) ↦ rw (v.up, e) (delete_at-IsMounted s v now i (lookup-lt s name i e))
]

-- A file that `fs_create` put on a mounted file system, under a name of at most 55 bytes none of which
-- is 0, is read back whole by `fs_read` with a buffer that is large enough.
pub read-create :
    (name contents : List ℕ) (s t : Fs) (max : ℕ)
    → IsMounted s
    → s.disk.history ≡ []
    → length contents < 2 ^ 31
    → fs_create name contents s ≡ (true, t)
    → IsText name
    → length name < namelen
    → length contents ≤ max
    → fs_read t name max ≡ some contents
read-create name contents s t max v now int_size h text short fits =
    let (start, c, e) = fs_create-Creates name contents s h in
    rw e (reading-new name contents s start int_size v now c max text short fits)

-- After a successful `fs_create` on a mounted file system, every name that `lookup` found before reads as
-- it did before.
pub read-create_other :
    (name contents other : List ℕ) (s t : Fs) (max i : ℕ)
    → IsMounted s
    → s.disk.history ≡ []
    → length contents < 2 ^ 31
    → fs_create name contents s ≡ (true, t)
    → lookup s other ≡ some i
    → fs_read t other max ≡ fs_read s other max
read-create_other name contents other s t max i v now int_size h found =
    let (start, c, e) = fs_create-Creates name contents s h in
    rw e (reading-old name contents s start int_size v now c other max i found)

-- After a successful `fs_create` on a mounted file system under a name of 56 bytes or more, none of them
-- 0, the file is not found under the name that it was given.
create_long_name :
    (name contents : List ℕ) (s t : Fs)
    → IsMounted s
    → s.disk.history ≡ []
    → length contents < 2 ^ 31
    → fs_create name contents s ≡ (true, t)
    → IsText name
    → namelen ≤ length name
    → lookup t name ≡ none
create_long_name name contents s t v now int_size h text long =
    let (start, c, e) = fs_create-Creates name contents s h in
    rw e (lookup-long name contents s start int_size v now c text long)
