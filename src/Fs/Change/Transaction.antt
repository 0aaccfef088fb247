-- ===== src/Fs/Change/Transaction.antt =====
-- The transactions of fs_create and fs_delete: the blocks that they log, and the memory beside them.
use kernel_hobby.Base.{
  ℕ, zero, suc, ◌+◌, ◌≤◌, ◌≡◌, inl, inr, refl, ap, ◌∙◌, List, [], ◌∷◌, ◌++◌, append_assoc,
  append-nil, arith, length, length-append, drop, fill,
}
use kernel_hobby.Fs.Format.{Block, bsize, datastart, dirblock, logn, encode_dir, encode_super}
use kernel_hobby.Fs.Disk.{Image}
use kernel_hobby.Fs.State.{Fs, maxblk}
use kernel_hobby.Fs.Log.{log_begin, log_write, log_commit}
use kernel_hobby.Fs.Log.Install.{Write}
use kernel_hobby.Fs.Log.Header.{IsClean}
use kernel_hobby.Fs.Log.Atomic.{Logging, Committed, log_write-Logging, log_commit-Committed}
use kernel_hobby.Fs.Inv.{super_of}
use kernel_hobby.Fs.Change.{log_dir, log_super, log_data}

-- The static variables but those of the log are the same.
pub record SameMemory (s t : Fs) : Type 0 where
  pub dir : s.dir ≡ t.dir
  pub nfiles : s.nfiles ≡ t.nfiles
  pub mounted : s.mounted ≡ t.mounted
  pub next_free : s.next_free ≡ t.next_free
  pub total_blocks : s.total_blocks ≡ t.total_blocks
  pub used : s.used ≡ t.used

pub SameMemory-trans : {s t u : Fs} → SameMemory s t → SameMemory t u → SameMemory s u
SameMemory-trans p q = record {
  dir = p.dir ∙ q.dir;
  nfiles = p.nfiles ∙ q.nfiles;
  mounted = p.mounted ∙ q.mounted;
  next_free = p.next_free ∙ q.next_free;
  total_blocks = p.total_blocks ∙ q.total_blocks;
  used = p.used ∙ q.used;
}

pub log_write-SameMemory : (b : ℕ) (v : Block) (s : Fs) → SameMemory (log_write b v s) s
unfolding log_write
log_write-SameMemory b v s = ground arith

pub log_commit-SameMemory : (s : Fs) → SameMemory (log_commit s) s
unfolding log_commit
log_commit-SameMemory s = ground arith

pub log_data-SameMemory :
    (n dst : ℕ) (contents : List ℕ) (s : Fs) → SameMemory (log_data n dst contents s) s
unfolding log_data
log_data-SameMemory zero dst contents s = ground arith
log_data-SameMemory (suc n) dst contents s =
    SameMemory-trans
      (log_data-SameMemory n (suc dst) (drop bsize contents)
        (log_write dst (fill bsize contents) s))
      (log_write-SameMemory dst (fill bsize contents) s)

-- The writes of `log_data`.
unfoldable pub data_writes : ℕ → ℕ → List ℕ → List Write
data_writes zero dst contents = []
data_writes (suc n) dst contents =
    (dst, fill bsize contents) ∷ data_writes n (suc dst) (drop bsize contents)

pub length-data_writes : (n dst : ℕ) (contents : List ℕ) → length (data_writes n dst contents) ≡ n
unfolding data_writes
length-data_writes zero dst contents = refl
length-data_writes (suc n) dst contents =
    ap suc (length-data_writes n (suc dst) (drop bsize contents))

pub log_begin-Logging :
    (s : Fs) → IsClean s.disk.image → s.disk.history ≡ [] → Logging s.disk.image [] (log_begin s)
unfolding log_begin
log_begin-Logging s c h = record {
  clean = c;
  same = λ x t. refl;
  blks = refl;
  in_room = refl;
  few = omega arith;
  dests = tt;
  fits = tt;
  stored = tt;
  past = rw h tt;
}

pub log_data-Logging :
    (n dst : ℕ) (contents : List ℕ) {start : Image} {ws : List Write} {s : Fs}
    → Logging start ws s
    → length ws + n ≤ logn
    → datastart ≤ dst
    → dst + n ≤ maxblk
    → Logging start (ws ++ data_writes n dst contents) (log_data n dst contents s)
unfolding log_data data_writes
log_data-Logging zero dst contents g room lo hi = rw append-nil g
log_data-Logging (suc n) dst contents {start} {ws} {s} g room lo hi =
    rw
      (← append_assoc ws ((dst, fill bsize contents) ∷ [])
        (data_writes n (suc dst) (drop bsize contents)))
      (log_data-Logging n (suc dst) (drop bsize contents)
        (log_write-Logging dst (fill bsize contents) g (omega arith) (inr lo) (omega arith))
        (rw length-append (omega arith)) (omega arith) (omega arith))

-- A transaction goes on when memory changes, but not the log.
pub Logging-memory :
    {start : Image} {ws : List Write} {s t : Fs}
    → Logging start ws s
    → t.disk ≡ s.disk
    → t.log_blk ≡ s.log_blk
    → t.log_overflow ≡ s.log_overflow
    → Logging start ws t
Logging-memory g d b o = record {
  clean = rw d g.clean;
  same = rw d g.same;
  blks = b ∙ g.blks;
  in_room = o ∙ g.in_room;
  few = g.few;
  dests = g.dests;
  fits = g.fits;
  stored = rw d g.stored;
  past = rw d g.past;
}

-- The metadata of a transaction, from the memory that it saves.
unfoldable pub meta_writes : Fs → List Write
meta_writes s = (dirblock, encode_dir s.dir) ∷ (0, encode_super (super_of s)) ∷ []

pub super_of-SameMemory : {s t : Fs} → SameMemory s t → super_of s ≡ super_of t
super_of-SameMemory m = ground arith

pub log_meta_lem :
    (s : Fs)
    → log_super (log_dir s)
      ≡ log_write 0 (encode_super (super_of s)) (log_write dirblock (encode_dir s.dir) s)
unfolding log_dir log_super
log_meta_lem s =
    ap (λ sb. log_write 0 (encode_super sb) (log_write dirblock (encode_dir s.dir) s))
      (super_of-SameMemory (log_write-SameMemory dirblock (encode_dir s.dir) s))

pub log_meta-SameMemory : (s : Fs) → SameMemory (log_commit (log_super (log_dir s))) s
log_meta-SameMemory s = rw (log_meta_lem s) (
    SameMemory-trans (log_commit-SameMemory _) (
      SameMemory-trans (log_write-SameMemory 0 (encode_super (super_of s)) _)
        (log_write-SameMemory dirblock (encode_dir s.dir) s)))

-- The end of both operations: directory and superblock are logged, and the log is committed.
pub log_meta-Committed :
    {start : Image} {ws : List Write} {s : Fs}
    → Logging start ws s
    → length ws + 2 ≤ logn
    → Committed start (ws ++ meta_writes s) (log_commit (log_super (log_dir s)))
unfolding meta_writes
log_meta-Committed {start} {ws} {s} g room =
    rw
      (
        log_meta_lem s,
        ← append_assoc ws ((dirblock, encode_dir s.dir) ∷ []) ((0, encode_super (super_of s)) ∷ []),
      )
      (log_commit-Committed
        (log_write-Logging 0 (encode_super (super_of s))
          (log_write-Logging dirblock (encode_dir s.dir) g (omega arith) (inl (omega arith))
            (omega arith))
          (rw length-append (omega arith)) (inl (omega arith)) (omega arith))
        (rw length-append (omega arith)))

pub log_begin-SameMemory : (s : Fs) → SameMemory (log_begin s) s
unfolding log_begin
log_begin-SameMemory s = ground arith
