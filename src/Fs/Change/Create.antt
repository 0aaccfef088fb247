-- ===== src/Fs/Change/Create.antt =====
-- fs_create: when it succeeds, and what it then does to the disk and to memory.
use kernel_hobby.Base.{
  ℕ, zero, suc, ◌+◌, ◌-◌, ◌≤◌, ◌<◌, ◌^◌, ◌≡◌, inl, inr, refl, ◌∙◌, Bool, true, false, List, [],
  ◌++◌, none, some, arith, length, set, IsWord, ◌==◌, if◌then◌else◌, Bool-cases, Option-cases,
}
use kernel_hobby.Fs.Format.{Dirent, maxfiles, namelen, datastart, logn, encode_dir, encode_super}
use kernel_hobby.Fs.State.{Fs, maxblk}
use kernel_hobby.Fs.Log.{log_begin}
use kernel_hobby.Fs.Log.Install.{Write, applied, applied-append}
use kernel_hobby.Fs.Log.Atomic.{Committed}
use kernel_hobby.Fs.Alloc.{blocks_of, mark, balloc_contig}
use kernel_hobby.Fs.Alloc.Laws.{within, balloc_contig-Found, run_free_sound}
use kernel_hobby.Fs.Read.{lookup}
use kernel_hobby.Fs.Inv.{entry, super_of, IsMounted}
use kernel_hobby.Fs.Change.{log_data, copy_name, add_entry, create_at, fs_create}
use kernel_hobby.Fs.Change.Effect.{applied-meta}
use kernel_hobby.Fs.Change.Transaction.{
  SameMemory, SameMemory-trans, log_data-SameMemory, log_meta-SameMemory, data_writes,
  length-data_writes, meta_writes, log_begin-Logging, log_begin-SameMemory, super_of-SameMemory,
  log_data-Logging, Logging-memory, log_meta-Committed,
}

-- A place for `n` blocks: data blocks that are free.
pub record IsFree (used : ℕ → Bool) (n start : ℕ) : Type 0 where
  pub lo : datastart ≤ start
  pub hi : start + n ≤ maxblk
  pub free : (x : ℕ) → within start n x ≡ true → used x ≡ false

balloc_zero :
    (used : ℕ → Bool) (total n : ℕ) {r : ℕ}
    → balloc_contig used total n ≡ some r
    → n ≡ 0
    → IsFree used n r
unfolding balloc_contig
balloc_zero used total zero h e = record {
  lo = ground arith;
  hi = ground arith;
  free = λ x o. absurd (ground arith);
}
balloc_zero used total (suc n) h e = absurd (omega arith)

balloc_contig-IsFree :
    (used : ℕ → Bool) (total n : ℕ) {r : ℕ}
    → n ≤ logn
    → balloc_contig used total n ≡ some r
    → IsFree used n r
balloc_contig-IsFree used total n {r} few h = elim (Bool-cases (n == 0)) [
  | inl e ↦ balloc_zero used total n h (ground arith)
  | inr ne ↦
      let found = balloc_contig-Found used total n (ground arith) h in
      record {
        lo = found.from;
        hi = found.within_map;
        free = λ x o. run_free_sound used r n x found.free (ground arith) (ground arith);
      }
]

-- A call of `fs_create` that succeeds: what its tests found, and where it put the file.
pub record Creates (name contents : List ℕ) (s : Fs) (start : ℕ) : Type 0 where
  pub room : s.nfiles < maxfiles
  pub absent : lookup s name ≡ none
  pub fits : blocks_of (length contents) + 2 ≤ logn
  pub place : IsFree s.used (blocks_of (length contents)) start

pub fs_create-Creates :
    (name contents : List ℕ) (s : Fs) {t : Fs}
    → fs_create name contents s ≡ (true, t)
    → (start : ℕ) × Creates name contents s start
      × (t ≡ create_at name contents start (blocks_of (length contents)) s)
unfolding fs_create
fs_create-Creates name contents s {t} h =
    elim (Option-cases (balloc_contig s.used s.total_blocks (blocks_of (length contents)))) [
      | inl full ↦ absurd (ground (arith, full))
      | inr (start, e) ↦ (
        start,
        record {
          room = ground arith;
          absent = ground arith;
          fits = ground arith;
          place =
              balloc_contig-IsFree s.used s.total_blocks (blocks_of (length contents))
                (ground arith) e;
        },
        ground arith,
      )
    ]

module _ (name contents : List ℕ) (s : Fs) (start : ℕ) (int_size : length contents < 2 ^ 31)
    (v : IsMounted s) (now : s.disk.history ≡ []) (c : Creates name contents s start) where
  abbrev nblocks : ℕ
  nblocks = blocks_of (length contents)

  -- the entry of the new file
  abbrev pub new_entry : Dirent
  new_entry = record {
    name = copy_name (namelen - 1) name (entry s.dir s.nfiles).name;
    size = length contents;
    start = start;
  }

  unfoldable pub logged : Fs
  logged = log_data nblocks start contents (log_begin s)

  -- memory before the metadata are logged
  unfoldable pub after : Fs
  after = add_entry name (length contents) start nblocks logged

  pub writes : List Write
  writes = data_writes nblocks start contents ++ meta_writes after

  logged-SameMemory : SameMemory logged s
  unfolding logged log_begin
  logged-SameMemory =
      SameMemory-trans (log_data-SameMemory nblocks start contents (log_begin s))
        (log_begin-SameMemory s)

  pub create_at-Committed : Committed s.disk.image writes (create_at name contents start nblocks s)
  unfolding create_at writes after logged add_entry
  create_at-Committed =
      log_meta-Committed
        (Logging-memory
          (log_data-Logging nblocks start contents (log_begin-Logging s v.clean now)
            (omega (arith, c.fits)) c.place.lo c.place.hi)
          refl refl refl)
        (omega (arith, length-data_writes nblocks start contents, c.fits))

  -- Memory at the end.
  pub create_at-SameMemory : SameMemory (create_at name contents start nblocks s) after
  unfolding create_at after logged
  create_at-SameMemory = log_meta-SameMemory after

  pub dir-create_at : (create_at name contents start nblocks s).dir ≡ set s.dir s.nfiles new_entry
  unfolding after add_entry
  dir-create_at = create_at-SameMemory.dir ∙ rw (logged-SameMemory.dir, logged-SameMemory.nfiles)

  pub nfiles-create_at : (create_at name contents start nblocks s).nfiles ≡ s.nfiles + 1
  unfolding after add_entry
  nfiles-create_at = create_at-SameMemory.nfiles ∙ rw logged-SameMemory.nfiles

  pub used-create_at :
      (create_at name contents start nblocks s).used ≡ mark true start nblocks s.used
  unfolding after add_entry
  used-create_at = create_at-SameMemory.used ∙ rw logged-SameMemory.used

  pub next-create_at : IsWord (create_at name contents start nblocks s).next_free
  unfolding after add_entry
  next-create_at =
      rw (create_at-SameMemory.next_free)
        (ground (arith, logged-SameMemory.next_free, v.next, c.place.hi))

  pub total-create_at : (create_at name contents start nblocks s).total_blocks ≡ s.total_blocks
  unfolding after add_entry
  total-create_at = create_at-SameMemory.total_blocks ∙ logged-SameMemory.total_blocks

  pub mounted-create_at : (create_at name contents start nblocks s).mounted ≡ true
  unfolding after add_entry
  mounted-create_at = create_at-SameMemory.mounted ∙ logged-SameMemory.mounted ∙ v.up

  -- The disk at the end: metadata that say what memory says, and the data blocks.
  pub low-create_at :
      (x : ℕ)
      → x < 2
      → (create_at name contents start nblocks s).disk.image x ≡ (
          if x == 0
          then encode_super (super_of (create_at name contents start nblocks s))
          else encode_dir (create_at name contents start nblocks s).dir)
  unfolding writes
  low-create_at x lt =
      create_at-Committed.effect x (inl lt)
      ∙ rw
          (
            applied-append (data_writes nblocks start contents) (meta_writes after) s.disk.image,
            applied-meta,
          )
          (rw (super_of-SameMemory create_at-SameMemory, create_at-SameMemory.dir) (ground arith))

  pub data-create_at :
      (x : ℕ)
      → datastart ≤ x
      → (create_at name contents start nblocks s).disk.image x
        ≡ applied (data_writes nblocks start contents) s.disk.image x
  unfolding writes
  data-create_at x le =
      create_at-Committed.effect x (inr le)
      ∙ rw
          (
            applied-append (data_writes nblocks start contents) (meta_writes after) s.disk.image,
            applied-meta,
          )
          (ground arith)
