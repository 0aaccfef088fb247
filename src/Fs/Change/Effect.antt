-- ===== src/Fs/Change/Effect.antt =====
-- What the writes of a transaction leave in each block.
use kernel_hobby.Base.{
  ℕ, zero, suc, ◌+◌, ◌≤◌, ◌<◌, ◌≡◌, refl, ◌∙◌, List, arith, drop, fill, ◌==◌, if◌then◌else◌, update,
}
use kernel_hobby.Fs.Format.{bsize, dirblock, encode_dir, encode_super}
use kernel_hobby.Fs.Disk.{Image}
use kernel_hobby.Fs.State.{Fs}
use kernel_hobby.Fs.Log.Install.{applied}
use kernel_hobby.Fs.Inv.{super_of}
use kernel_hobby.Fs.Change.Transaction.{data_writes, meta_writes}

-- A data block is none of the first two.
pub applied-data_low :
    (n dst : ℕ) (contents : List ℕ) (m : Image) (x : ℕ)
    → x < dst
    → applied (data_writes n dst contents) m x ≡ m x
unfolding applied data_writes
applied-data_low zero dst contents m x lt = refl
applied-data_low (suc n) dst contents m x lt =
    applied-data_low n (suc dst) (drop bsize contents) (update m dst (fill bsize contents)) x
      (omega arith)
    ∙ ground arith

-- The blocks behind the file stay as they were.
pub applied-data_high :
    (n dst : ℕ) (contents : List ℕ) (m : Image) (x : ℕ)
    → dst + n ≤ x
    → applied (data_writes n dst contents) m x ≡ m x
unfolding applied data_writes
applied-data_high zero dst contents m x le = refl
applied-data_high (suc n) dst contents m x le =
    applied-data_high n (suc dst) (drop bsize contents) (update m dst (fill bsize contents)) x
      (omega arith)
    ∙ ground arith

-- What the metadata blocks hold at the end.
pub applied-meta :
    (s : Fs) (m : Image) (x : ℕ)
    → applied (meta_writes s) m x ≡ (
        if x == 0
        then encode_super (super_of s)
        else if x == dirblock
        then encode_dir s.dir
        else m x)
unfolding applied meta_writes
applied-meta s m x = ground arith
