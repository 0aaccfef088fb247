-- ===== src/Fs/Restart.antt =====
-- Mounts of a disk after power failures: src/fs.c, `fs_init` with the recovery of the log.
use kernel_hobby.Base.{
  ℕ, ◌≡◌, ◌⊎◌, inl, inr, true, List, [], ◌∷◌, All, sym, ◌∙◌, arith, subst, ◌==◌,
}
use kernel_hobby.Fs.Disk.{Image, Disk}
use kernel_hobby.Fs.State.{Fs}
use kernel_hobby.Fs.Log.{recover}
use kernel_hobby.Fs.Log.Header.{reboot}
use kernel_hobby.Fs.Log.Watch.{Sound, recover-Always}
use kernel_hobby.Fs.Log.Again.{recover-RecoversTo}
use kernel_hobby.Fs.Format.{decode_super, fs_magic}
use kernel_hobby.Fs.Log.Atomic.{RecoversTo}
use kernel_hobby.Fs.Inv.{IsMounted}
use kernel_hobby.Fs.Mount.{fs_init}
use kernel_hobby.Fs.Mount.Laws.{boot, IsSuperblock, SameFiles, fs_init-SameFiles, fs_read-SameFiles}
use kernel_hobby.Fs.Read.{fs_read}

-- one of these images
abbrev pub Among : Image → List Image → Type 0
Among m [] = ⊥
Among m (x ∷ xs) = (x ≡ m) ⊎ Among m xs

-- the images that a disk had so far, the present one included
abbrev pub images : Disk → List Image
images d = d.image ∷ d.history

-- Power comes back on the disk `m`, and fails while `fs_init` recovers it or after that, any number of times.
-- The last failure leaves the second image.
pub data Restarts (m : Image) : Image → Type 0 where
  once : Restarts m m
  again :
      {m' : Image} (m'' : Image)
      → Restarts m m'
      → Among m'' (images (fs_init (boot m')).disk)
      → Restarts m m''

All-Among : (P : Image → Type 0) (xs : List Image) {m : Image} → All P xs → Among m xs → P m
All-Among P [] h a = absurd a
All-Among P (x ∷ xs) h (inl e) = subst P e h.0
All-Among P (x ∷ xs) h (inr a) = All-Among P xs h.1 a

module _ {s : Fs} (v : IsMounted s) where
  abbrev pub Recoverable : Image → Type 0
  Recoverable m = RecoversTo s.disk.image m × Sound (IsSuperblock s.total_blocks) m

  All-Recoverable :
      (ms : List Image)
      → All (RecoversTo s.disk.image) ms
      → All (Sound (IsSuperblock s.total_blocks)) ms
      → All Recoverable ms
  All-Recoverable [] r k = tt
  All-Recoverable (m ∷ ms) r k = ((r.0, k.0), All-Recoverable ms r.1 k.1)

  -- What fs_init leaves, and each image on the way, can be recovered again.
  fs_init-Recoverable :
      (m : Image)
      → Recoverable m
      → All Recoverable ((fs_init (boot m)).disk.image ∷ (fs_init (boot m)).disk.history)
  unfolding fs_init
  fs_init-Recoverable m h =
      let (past, now) = recover-RecoversTo m h.0 in
      let sound = recover-Always (IsSuperblock s.total_blocks) m h.1 in
      let accepted : ((decode_super (m 0)).magic == fs_magic) ≡ true = ground (arith, h.1.0.0) in
      rw accepted ((now, sound.0), All-Recoverable (recover (reboot m)).history past sound.1)

  pub Restarts-Recoverable : {m m' : Image} → Recoverable m → Restarts m m' → Recoverable m'
  Restarts-Recoverable h once = h
  Restarts-Recoverable {m} h (again {m'} m'' r a) =
      All-Among Recoverable (images (fs_init (boot m')).disk)
        (fs_init-Recoverable m' (Restarts-Recoverable h r)) a

  Recoverable-SameFiles : (m : Image) → Recoverable m → SameFiles (fs_init (boot m)) s
  Recoverable-SameFiles m h = fs_init-SameFiles m v h.1.0 h.0

SameFiles-common : {a b s : Fs} → SameFiles a s → SameFiles b s → SameFiles a b
SameFiles-common f g = record {
  up = f.up;
  dir = f.dir ∙ sym g.dir;
  nfiles = f.nfiles ∙ sym g.nfiles;
  next_free = f.next_free ∙ sym g.next_free;
  total_blocks = f.total_blocks ∙ sym g.total_blocks;
  bitmap = rw (g.dir, g.nfiles) f.bitmap;
  blocks = λ x le. f.blocks x le ∙ sym (g.blocks x le);
}

-- `u` is ready, with the directory, the bitmap and the data blocks of `s`, and every name reads in it as in `s`.
pub record SameReads (u s : Fs) : Type 0 where
  pub files : SameFiles u s
  pub reads : (name : List ℕ) (max : ℕ) → fs_read u name max ≡ fs_read s name max

-- The mount of the image `m` gives `s`, or what is behind it with `After`; and a mount of `m'` gives the same.
pub record MountsAs (s : Fs) (After : Fs → Type 0) (m m' : Image) : Type 0 where
  pub one_of : SameReads (fs_init (boot m)) s ⊎ After (fs_init (boot m))
  pub stays : SameReads (fs_init (boot m')) (fs_init (boot m))

pub Recoverable-SameReads :
    {s : Fs} (v : IsMounted s) (m : Image) → Recoverable v m → SameReads (fs_init (boot m)) s
Recoverable-SameReads v m h =
    let f = Recoverable-SameFiles v m h in
    record { files = f; reads = λ name max. fs_read-SameFiles name max v f }

SameReads-common : {a b s : Fs} → SameReads a s → SameReads b s → SameReads a b
SameReads-common f g = record {
  files = SameFiles-common f.files g.files;
  reads = λ name max. f.reads name max ∙ sym (g.reads name max);
}

module _ {s t : Fs} (v : IsMounted s) (w : IsMounted t)
    (same_total : t.total_blocks ≡ s.total_blocks) {m m' : Image} (r : Restarts m m') where
  restarted :
      RecoversTo s.disk.image m ⊎ RecoversTo t.disk.image m
      → Sound (IsSuperblock s.total_blocks) m
      → MountsAs s (λ u. SameReads u t) m m'
  restarted (inl before) k =
      let f = Recoverable-SameReads v m (before, k) in
      let g = Recoverable-SameReads v m' (Restarts-Recoverable v (before, k) r) in
      record { one_of = inl f; stays = SameReads-common g f }
  restarted (inr after) k =
      let h : Recoverable w m = (after, rw same_total k) in
      let f = Recoverable-SameReads w m h in
      let g = Recoverable-SameReads w m' (Restarts-Recoverable w h r) in
      record { one_of = inr f; stays = SameReads-common g f }

  pub Among-MountsAs :
      (ms : List Image)
      → All (λ x. RecoversTo s.disk.image x ⊎ RecoversTo t.disk.image x) ms
      → All (Sound (IsSuperblock s.total_blocks)) ms
      → Among m ms
      → MountsAs s (λ u. SameReads u t) m m'
  Among-MountsAs ms o k a =
      restarted (All-Among (λ x. RecoversTo s.disk.image x ⊎ RecoversTo t.disk.image x) ms o a)
        (All-Among (Sound (IsSuperblock s.total_blocks)) ms k a)

pub MountsAs-map :
    {s : Fs} {P Q : Fs → Type 0} {m m' : Image}
    → ((u : Fs) → P u → Q u)
    → MountsAs s P m m'
    → MountsAs s Q m m'
MountsAs-map {m} f h = record {
  one_of = elim h.one_of [ inl a ↦ inl a | inr b ↦ inr (f (fs_init (boot m)) b) ];
  stays = h.stays;
}
