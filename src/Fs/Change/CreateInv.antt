-- ===== src/Fs/Change/CreateInv.antt =====
-- fs_create keeps the invariant of a mounted file system.
use kernel_hobby.Base.{ℕ, ◌-◌, ◌<◌, ◌^◌, ◌≡◌, ◌∙◌, List, [], arith, length}
use kernel_hobby.Fs.Format.{Dirent, namelen, dirblock}
use kernel_hobby.Fs.Format.RoundTrip.{
  IsEntry, IsSuper, decode_dir-encode_dir, decode_super-encode_super,
}
use kernel_hobby.Fs.State.{Fs}
use kernel_hobby.Fs.Alloc.{blocks_of}
use kernel_hobby.Fs.Inv.{entry, Owns, super_of, IsPlaced, IsDirectory, IsBitmap, IsMounted}
use kernel_hobby.Fs.Change.{create_at}
use kernel_hobby.Fs.Change.Memory.{set-IsDirectory, mark-IsBitmap, length-copy_name, IsEntry-entry}
use kernel_hobby.Fs.Change.Create

module _ (name contents : List ℕ) (s : Fs) (start : ℕ) (int_size : length contents < 2 ^ 31)
    (v : IsMounted s) (now : s.disk.history ≡ []) (c : Create.Creates name contents s start) where
  abbrev done : Fs
  done = create_at name contents start (blocks_of (length contents)) s

  abbrev fresh_entry : Dirent
  fresh_entry = Create.new_entry name contents s start int_size v now c

  fresh-IsEntry : IsEntry fresh_entry
  fresh-IsEntry = record {
    name =
        length-copy_name (namelen - 1) name (entry s.dir s.nfiles).name
        ∙ (IsEntry-entry s.dir s.nfiles v.directory.entries).name;
    size = omega arith;
    start = omega (arith, c.place.hi);
  }

  fresh-IsPlaced : IsPlaced fresh_entry
  fresh-IsPlaced = record { small = omega arith; behind_log = c.place.lo; within_map = c.place.hi }

  -- No older file owns a block of the new one.
  pub fresh-apart : (i x : ℕ) → i < s.nfiles → Owns (entry s.dir i) x → Owns fresh_entry x → ⊥
  fresh-apart i x lt o q = ground (arith, v.bitmap.marked i x lt o, c.place.free x q)

  pub IsDirectory-create_at : IsDirectory done.dir done.nfiles
  IsDirectory-create_at =
      rw
        (
          Create.dir-create_at name contents s start int_size v now c,
          Create.nfiles-create_at name contents s start int_size v now c,
        )
        (set-IsDirectory v.directory c.room fresh_entry fresh-IsEntry fresh-IsPlaced fresh-apart)

  IsBitmap-create_at : IsBitmap done.dir done.nfiles done.used
  IsBitmap-create_at =
      rw
        (
          Create.dir-create_at name contents s start int_size v now c,
          Create.nfiles-create_at name contents s start int_size v now c,
          Create.used-create_at name contents s start int_size v now c,
        )
        (mark-IsBitmap v.directory c.room fresh_entry fresh-IsEntry fresh-IsPlaced fresh-apart
          v.bitmap)

  pub super_of-create_at : IsSuper (super_of done)
  super_of-create_at = record {
    magic = omega arith;
    nfiles = omega (arith, IsDirectory-create_at.few);
    next_free = Create.next-create_at name contents s start int_size v now c;
    total_blocks =
        omega (arith, Create.total-create_at name contents s start int_size v now c, v.total);
  }

  pub create_at-IsMounted : IsMounted done
  create_at-IsMounted = record {
    up = Create.mounted-create_at name contents s start int_size v now c;
    directory = IsDirectory-create_at;
    bitmap = IsBitmap-create_at;
    total = rw (Create.total-create_at name contents s start int_size v now c) v.total;
    next = Create.next-create_at name contents s start int_size v now c;
    clean = (Create.create_at-Committed name contents s start int_size v now c).clean;
    dir_saved =
        rw (Create.low-create_at name contents s start int_size v now c dirblock (omega arith)) (
          decode_dir-encode_dir done.dir IsDirectory-create_at.entries
            IsDirectory-create_at.all_slots);
    super_saved =
        rw (Create.low-create_at name contents s start int_size v now c 0 (omega arith))
          (decode_super-encode_super (super_of done) super_of-create_at);
  }
