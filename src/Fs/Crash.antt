-- ===== src/Fs/Crash.antt =====
-- A power failure anywhere in fs_create or fs_delete, and the mount that follows.
use kernel_hobby.Base.{
  ℕ, ◌+◌, ◌-◌, ◌≢◌, some, ◌<◌, ◌^◌, ◌≡◌, refl, inl, ap, true, List, [], length, ◌∙◌, arith,
}
use kernel_hobby.Fs.Disk.{Image}
use kernel_hobby.Fs.State.{Fs}
use kernel_hobby.Fs.Format.{namelen}
use kernel_hobby.Fs.Log.Atomic.{RecoversTo-IsClean, Committed-outcomes}
use kernel_hobby.Fs.Alloc.{blocks_of}
use kernel_hobby.Fs.Inv.{IsMounted}
use kernel_hobby.Fs.Mount.{fs_init}
use kernel_hobby.Fs.Mount.Laws.{boot}
use kernel_hobby.Fs.Change.{create_at, fs_create, fs_delete, delete_at}
use kernel_hobby.Fs.Change.Create.{
  Creates, nfiles-create_at, fs_create-Creates, create_at-Committed, total-create_at,
}
use kernel_hobby.Fs.Change.CreateInv.{create_at-IsMounted}
use kernel_hobby.Fs.Read.{lookup, fs_read}
use kernel_hobby.Fs.Change.RoundTrip.{IsText, reading-new, reading-old}
use kernel_hobby.Fs.Change.Survive.{reading-kept}
use kernel_hobby.Fs.Read.Names.{lookup-lt}
use kernel_hobby.Fs.Change.Delete.{
  nfiles-delete_at, fs_delete-some, delete_at-Committed, delete_at-IsMounted, rest-delete_at,
}
use kernel_hobby.Fs.Change.Watch.{create_at-Always, delete_at-Always}
use kernel_hobby.Fs.Restart.{
  Among, Restarts, SameReads, MountsAs, MountsAs-map, Among-MountsAs, Recoverable-SameReads,
  Restarts-Recoverable,
}

-- `u` has one file more than `s`: `name` reads as the contents, and every name that `s` found reads as in `s`.
pub record With (name contents : List ℕ) (s u : Fs) : Type 0 where
  pub one_more : u.nfiles ≡ s.nfiles + 1
  pub made : (extra : ℕ) → fs_read u name (length contents + extra) ≡ some contents
  pub kept :
      (other : List ℕ) (max i : ℕ)
      → lookup s other ≡ some i
      → fs_read u other max ≡ fs_read s other max

-- `u` has one file less than `s`: every name that `s` found, but not as the file number `idx`, reads as in `s`.
pub record Without (idx : ℕ) (s u : Fs) : Type 0 where
  pub one_less : u.nfiles ≡ s.nfiles - 1
  pub kept :
      (other : List ℕ) (max i : ℕ)
      → lookup s other ≡ some i
      → idx ≢ i
      → fs_read u other max ≡ fs_read s other max

SameReads-With :
    {name contents : List ℕ} {s t u : Fs}
    → SameReads u t
    → With name contents s t
    → With name contents s u
SameReads-With {name} {contents} u w = record {
  one_more = u.files.nfiles ∙ w.one_more;
  made = λ extra. u.reads name (length contents + extra) ∙ w.made extra;
  kept = λ other max i e. u.reads other max ∙ w.kept other max i e;
}

SameReads-Without : {idx : ℕ} {s t u : Fs} → SameReads u t → Without idx s t → Without idx s u
SameReads-Without u w = record {
  one_less = u.files.nfiles ∙ w.one_less;
  kept = λ other max i e ne. u.reads other max ∙ w.kept other max i e ne;
}

create_at-With :
    (name contents : List ℕ) (s : Fs) (start : ℕ) (int_size : length contents < 2 ^ 31)
    (v : IsMounted s) (now : s.disk.history ≡ []) (c : Creates name contents s start)
    → IsText name
    → length name < namelen
    → With name contents s (create_at name contents start (blocks_of (length contents)) s)
create_at-With name contents s start int_size v now c text short = record {
  one_more = nfiles-create_at name contents s start int_size v now c;
  made = λ extra.
      reading-new name contents s start int_size v now c (length contents + extra) text short
        (omega arith);
  kept = λ other max i e. reading-old name contents s start int_size v now c other max i e;
}

-- Let `fs_create` succeed on a mounted file system, for contents of less than 2 ^ 31 bytes and a name of at
-- most 55 bytes none of which is 0, with the record of the disk's images empty at the start. A power failure that
-- leaves any image the disk had on the way, and any number of power failures at the mounts after it (`fs_init`, with
-- the recovery of the log). The first mount gives the directory, the bitmap and the data blocks from before the
-- call, every name reading as then; or one file more, `name` reading as the contents and every name that was found
-- before reading as then. The last mount gives what the first one gave.
pub create_atomic :
    (name contents : List ℕ) (s t : Fs) (m m' : Image)
    → IsMounted s
    → s.disk.history ≡ []
    → length contents < 2 ^ 31
    → IsText name
    → length name < namelen
    → fs_create name contents s ≡ (true, t)
    → Among m t.disk.history
    → Restarts m m'
    → MountsAs s (With name contents s) m m'
create_atomic name contents s t m m' v now int_size text short h =
    let (start, c, e) = fs_create-Creates name contents s h in
    rw e (λ a r.
      MountsAs-map
        (λ u f. SameReads-With f (create_at-With name contents s start int_size v now c text short))
        (Among-MountsAs v (create_at-IsMounted name contents s start int_size v now c)
          (total-create_at name contents s start int_size v now c) r
          (create_at name contents start (blocks_of (length contents)) s).disk.history
          (Committed-outcomes (create_at-Committed name contents s start int_size v now c))
          (create_at-Always name contents s start int_size v now c).1 a))

delete_at-Without :
    (s : Fs) (v : IsMounted s) (now : s.disk.history ≡ []) (idx : ℕ) (there : idx < s.nfiles)
    → Without idx s (delete_at idx s)
delete_at-Without s v now idx there = record {
  one_less = nfiles-delete_at s v now idx there;
  kept = λ other max i e ne. reading-kept s v now idx there other max i e ne;
}

-- Let `fs_delete` succeed on a mounted file system, with the record of the disk's images empty at the
-- start: the name was that of some file `i`. After a power failure on the way, and any number of failures at the
-- mounts after it, the first mount gives the directory, the bitmap and the data blocks from before the call, every
-- name reading as then; or one file less, every name that was found as another file than `i` reading as before. The
-- last mount gives what the first one gave.
pub delete_atomic :
    (name : List ℕ) (s t : Fs) (m m' : Image)
    → IsMounted s
    → s.disk.history ≡ []
    → fs_delete name s ≡ (true, t)
    → Among m t.disk.history
    → Restarts m m'
    → (i : ℕ) × (lookup s name ≡ some i) × MountsAs s (Without i s) m m'
delete_atomic name s t m m' v now h =
    let (i, found, e) = fs_delete-some name s h in
    let there = lookup-lt s name i found in
    rw e (λ a r. (
      i,
      found,
      MountsAs-map (λ u f. SameReads-Without f (delete_at-Without s v now i there))
          (Among-MountsAs v (delete_at-IsMounted s v now i there) (rest-delete_at s v now i there).2
            r (delete_at i s).disk.history
            (Committed-outcomes (delete_at-Committed s v now i there))
            (delete_at-Always s v now i there).1 a),
    ))

-- The memory of a mounted file system can be found again from its disk: `fs_init` on that disk, with
-- the variables as at boot, gives the same directory, bitmap and data blocks, and every name reads as before, however
-- often the power failed at mounts before.
pub mount_again :
    (s : Fs) (m : Image) → IsMounted s → Restarts s.disk.image m → SameReads (fs_init (boot m)) s
mount_again s m v r = Recoverable-SameReads v m (
    Restarts-Recoverable v
      (
        RecoversTo-IsClean v.clean (λ x t. refl),
        (
          (ap (λ sb. sb.magic) v.super_saved, ap (λ sb. sb.total_blocks) v.super_saved),
          inl v.clean,
        ),
      )
      r)
