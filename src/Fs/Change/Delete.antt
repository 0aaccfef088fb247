-- ===== src/Fs/Change/Delete.antt =====
-- fs_delete: its transaction, and what it leaves in memory.
use kernel_hobby.Base.{
  ℕ, ◌-◌, ◌≤◌, ◌<◌, ◌≡◌, inl, inr, ◌∙◌, true, false, List, [], some, arith, set, ◌==◌,
  if◌then◌else◌, Option-cases,
}
use kernel_hobby.Fs.Format.{blank, datastart, dirblock, encode_dir, encode_super}
use kernel_hobby.Fs.Format.RoundTrip.{IsSuper, decode_dir-encode_dir, decode_super-encode_super}
use kernel_hobby.Fs.State.{Fs}
use kernel_hobby.Fs.Log.Atomic.{Committed}
use kernel_hobby.Fs.Alloc.{blocks_of, mark}
use kernel_hobby.Fs.Read.{lookup}
use kernel_hobby.Fs.Inv.{entry, super_of, IsDirectory, IsMounted}
use kernel_hobby.Fs.Change.{shift_down, drop_entry, delete_at, fs_delete}
use kernel_hobby.Fs.Change.Removal.{removed-IsDirectory, removed-IsBitmap}
use kernel_hobby.Fs.Change.Transaction.{
  SameMemory, SameMemory-trans, log_begin-SameMemory, log_meta-SameMemory, meta_writes,
  super_of-SameMemory, log_begin-Logging, log_meta-Committed,
}
use kernel_hobby.Fs.Change.Effect.{applied-meta}
use kernel_hobby.Fs.Log.{log_begin}

-- A call that succeeds removes the first entry with the name.
pub fs_delete-some :
    (name : List ℕ) (s : Fs) {t : Fs}
    → fs_delete name s ≡ (true, t)
    → (i : ℕ) × (lookup s name ≡ some i) × (t ≡ delete_at i s)
unfolding fs_delete
fs_delete-some name s {t} h = elim (Option-cases (lookup s name)) [
  | inl gone ↦ absurd (ground (arith, gone))
  | inr (i, e) ↦ (i, e, ground arith)
]

module _ (s : Fs) (v : IsMounted s) (now : s.disk.history ≡ []) (idx : ℕ)
    (there : idx < s.nfiles) where
  -- memory without the file
  unfoldable pub dropped : Fs
  dropped = log_begin (drop_entry idx s)

  abbrev done : Fs
  done = delete_at idx s

  pub delete_at-Committed : Committed s.disk.image (meta_writes dropped) done
  unfolding delete_at dropped log_begin drop_entry
  delete_at-Committed =
      log_meta-Committed (log_begin-Logging (drop_entry idx s) v.clean now) (omega arith)

  pub delete_at-SameMemory : SameMemory done dropped
  unfolding delete_at dropped
  delete_at-SameMemory = log_meta-SameMemory dropped

  dropped-SameMemory : SameMemory dropped (drop_entry idx s)
  unfolding dropped
  dropped-SameMemory = log_begin-SameMemory (drop_entry idx s)

  memory : SameMemory done (drop_entry idx s)
  memory = SameMemory-trans delete_at-SameMemory dropped-SameMemory

  pub dir-delete_at :
      done.dir ≡ set (shift_down (s.nfiles - 1 - idx) idx s.dir) (s.nfiles - 1) blank
  unfolding drop_entry
  dir-delete_at = memory.dir

  pub nfiles-delete_at : done.nfiles ≡ s.nfiles - 1
  unfolding drop_entry
  nfiles-delete_at = memory.nfiles

  used-delete_at :
      done.used ≡ mark false (entry s.dir idx).start (blocks_of (entry s.dir idx).size) s.used
  unfolding drop_entry
  used-delete_at = memory.used

  pub rest-delete_at :
      (done.mounted ≡ s.mounted)
      × (done.next_free ≡ s.next_free)
      × (done.total_blocks ≡ s.total_blocks)
  unfolding drop_entry
  rest-delete_at = (memory.mounted, memory.next_free, memory.total_blocks)

  directory : IsDirectory done.dir done.nfiles
  directory = rw (dir-delete_at, nfiles-delete_at) (removed-IsDirectory v.directory there)

  low-delete_at :
      (x : ℕ)
      → x < 2
      → done.disk.image x ≡ (if x == 0 then encode_super (super_of done) else encode_dir done.dir)
  low-delete_at x lt =
      delete_at-Committed.effect x (inl lt)
      ∙ rw (applied-meta, super_of-SameMemory delete_at-SameMemory, delete_at-SameMemory.dir)
          (ground arith)

  -- No data block changes.
  pub data-delete_at : (x : ℕ) → datastart ≤ x → done.disk.image x ≡ s.disk.image x
  data-delete_at x le = delete_at-Committed.effect x (inr le) ∙ rw applied-meta (ground arith)

  pub super : IsSuper (super_of done)
  super = record {
    magic = omega arith;
    nfiles = omega (arith, directory.few);
    next_free = omega (arith, rest-delete_at, v.next);
    total_blocks = omega (arith, rest-delete_at, v.total);
  }

  pub delete_at-IsMounted : IsMounted done
  delete_at-IsMounted = record {
    up = rest-delete_at.0 ∙ v.up;
    directory = directory;
    bitmap =
        rw (dir-delete_at, nfiles-delete_at, used-delete_at)
          (removed-IsBitmap v.directory there v.bitmap);
    total = rw rest-delete_at.2 v.total;
    next = rw rest-delete_at.1 v.next;
    clean = delete_at-Committed.clean;
    dir_saved =
        rw (low-delete_at dirblock (omega arith))
          (decode_dir-encode_dir done.dir directory.entries directory.all_slots);
    super_saved =
        rw (low-delete_at 0 (omega arith)) (decode_super-encode_super (super_of done) super);
  }
