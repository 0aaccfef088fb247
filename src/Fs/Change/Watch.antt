-- ===== src/Fs/Change/Watch.antt =====
-- The superblock throughout fs_create and fs_delete: one that `fs_init` accepts.
use kernel_hobby.Base.{
  ℕ, zero, suc, ◌+◌, ◌≤◌, ◌<◌, ◌^◌, ◌≡◌, inl, refl, List, [], ◌∷◌, ◌++◌, arith, length,
  length-append, drop, fill,
}
use kernel_hobby.Fs.Format.{Block, bsize, dirblock, logn, encode_dir, encode_super}
use kernel_hobby.Fs.Format.RoundTrip.{IsSuper, decode_super-encode_super}
use kernel_hobby.Fs.Disk.{Image}
use kernel_hobby.Fs.State.{Fs}
use kernel_hobby.Fs.Log.{log_begin, log_write, log_commit}
use kernel_hobby.Fs.Log.Install.{Write}
use kernel_hobby.Fs.Log.Atomic.{Logging, log_write-Logging}
use kernel_hobby.Fs.Log.Watch.{Always, Quiet, Writes, log_write-Quiet, log_commit-Always}
use kernel_hobby.Fs.Alloc.{blocks_of}
use kernel_hobby.Fs.Inv.{super_of, IsMounted}
use kernel_hobby.Fs.Mount.Laws.{IsSuperblock}
use kernel_hobby.Fs.Change.{
  log_dir, log_super, log_data, add_entry, create_at, delete_at, drop_entry,
}
use kernel_hobby.Fs.Change.Transaction.{
  data_writes, length-data_writes, log_begin-Logging, log_data-Logging, Logging-memory,
  log_meta_lem, super_of-SameMemory,
}
use kernel_hobby.Fs.Change.Create
use kernel_hobby.Fs.Change.Create.{Creates}
use kernel_hobby.Fs.Change.CreateInv
use kernel_hobby.Fs.Change.Delete

module _ (K : Block → Type 0) where
  log_data-Quiet :
      (n dst : ℕ) (contents : List ℕ) (s : Fs)
      → Quiet K s.disk
      → Quiet K (log_data n dst contents s).disk
  unfolding log_data
  log_data-Quiet zero dst contents s a = a
  log_data-Quiet (suc n) dst contents s a =
      log_data-Quiet n (suc dst) (drop bsize contents) (log_write dst (fill bsize contents) s)
        (log_write-Quiet K dst (fill bsize contents) s a)

  Writes-append : (ws vs : List Write) → Writes K ws → Writes K vs → Writes K (ws ++ vs)
  Writes-append [] vs h g = g
  Writes-append (w ∷ ws) vs h g = (h.0, Writes-append ws vs h.1 g)

  Writes-data : (n dst : ℕ) (contents : List ℕ) → 0 < dst → Writes K (data_writes n dst contents)
  unfolding data_writes
  Writes-data zero dst contents pos = tt
  Writes-data (suc n) dst contents pos =
      ((λ e. absurd (omega arith)), Writes-data n (suc dst) (drop bsize contents) (omega arith))

  log_meta-Always :
      {start : Image} {ws : List Write} {s : Fs}
      → Logging start ws s
      → length ws + 2 ≤ logn
      → Writes K ws
      → K (encode_super (super_of s))
      → Quiet K s.disk
      → Always K (log_commit (log_super (log_dir s))).disk
  log_meta-Always {start} {ws} {s} g room w k a = rw (log_meta_lem s) (
      log_commit-Always K
        (log_write-Logging 0 (encode_super (super_of s))
          (log_write-Logging dirblock (encode_dir s.dir) g (omega arith) (inl (omega arith))
            (omega arith))
          (rw length-append (omega arith)) (inl (omega arith)) (omega arith))
        (rw length-append (omega arith))
        (Writes-append (ws ++ (dirblock, encode_dir s.dir) ∷ [])
          ((0, encode_super (super_of s)) ∷ [])
          (Writes-append ws ((dirblock, encode_dir s.dir) ∷ []) w ((λ e. absurd (omega arith)), tt))
          ((λ e. k), tt))
        (log_write-Quiet K 0 (encode_super (super_of s)) _
          (log_write-Quiet K dirblock (encode_dir s.dir) s a)))

-- What the memory `t` saves is such a superblock.
IsSuperblock-encode_super :
    (t : Fs) {total : ℕ}
    → IsSuper (super_of t)
    → t.total_blocks ≡ total
    → IsSuperblock total (encode_super (super_of t))
IsSuperblock-encode_super t w e = rw (decode_super-encode_super (super_of t) w) (refl, e)

IsSuperblock-now : {s : Fs} → IsMounted s → IsSuperblock s.total_blocks (s.disk.image 0)
IsSuperblock-now v = rw v.super_saved (refl, refl)

-- Every image that fs_create goes through has a superblock that `fs_init` accepts.
module _ (name contents : List ℕ) (s : Fs) (start : ℕ) (int_size : length contents < 2 ^ 31)
    (v : IsMounted s) (now : s.disk.history ≡ []) (c : Creates name contents s start) where
  pub create_at-Always :
      Always
        (IsSuperblock s.total_blocks)
        (create_at name contents start (blocks_of (length contents)) s).disk
  unfolding create_at Create.after Create.logged log_begin add_entry
  create_at-Always =
      log_meta-Always (IsSuperblock s.total_blocks)
        (Logging-memory
          (log_data-Logging (blocks_of (length contents)) start contents
            (log_begin-Logging s v.clean now) (omega (arith, c.fits)) c.place.lo c.place.hi)
          refl refl refl)
        (omega (arith, length-data_writes (blocks_of (length contents)) start contents, c.fits))
        (Writes-data (IsSuperblock s.total_blocks) (blocks_of (length contents)) start contents
          (omega (arith, c.place.lo)))
        saved
        (log_data-Quiet (IsSuperblock s.total_blocks) (blocks_of (length contents)) start contents
          (log_begin s) (IsSuperblock-now v, v.clean, rw now tt))
    where
      saved :
          IsSuperblock s.total_blocks
            (encode_super (super_of (Create.after name contents s start int_size v now c)))
      saved =
          rw
            (← super_of-SameMemory
              (Create.create_at-SameMemory name contents s start int_size v now c))
            (IsSuperblock-encode_super
              (create_at name contents start (blocks_of (length contents)) s)
              (CreateInv.super_of-create_at name contents s start int_size v now c)
              (Create.total-create_at name contents s start int_size v now c))

-- So has every image that fs_delete goes through.
module _ (s : Fs) (v : IsMounted s) (now : s.disk.history ≡ []) (idx : ℕ)
    (there : idx < s.nfiles) where
  pub delete_at-Always : Always (IsSuperblock s.total_blocks) (delete_at idx s).disk
  unfolding delete_at Delete.dropped log_begin drop_entry
  delete_at-Always =
      log_meta-Always (IsSuperblock s.total_blocks)
        (log_begin-Logging (drop_entry idx s) v.clean now) (omega arith) tt saved
        (IsSuperblock-now v, v.clean, rw now tt)
    where
      saved :
          IsSuperblock s.total_blocks (encode_super (super_of (Delete.dropped s v now idx there)))
      saved = rw (← super_of-SameMemory (Delete.delete_at-SameMemory s v now idx there)) (
          IsSuperblock-encode_super (delete_at idx s) (Delete.super s v now idx there)
            (Delete.rest-delete_at s v now idx there).2)
