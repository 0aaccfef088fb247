-- ===== src/Fs/Mount/Laws.antt =====
-- Mounting an image that recovers to what a mounted file system left.
use kernel_hobby.Base.{
  ℕ, inr, List, Option-cases, ◌+◌, ◌/◌, ◌≤◌, ◌<◌, ◌≡◌, inl, refl, ap, ◌∙◌, true, false, [], arith,
  ◌==◌,
}
use kernel_hobby.Fs.Format.{
  Block, bsize, maxfiles, dirblock, datastart, fs_magic, decode_super, decode_dir,
}
use kernel_hobby.Fs.Disk.{Image, Disk}
use kernel_hobby.Fs.State.{Fs, maxblk}
use kernel_hobby.Fs.Log.{recover}
use kernel_hobby.Fs.Log.Header.{reboot, recovered}
use kernel_hobby.Fs.Log.Atomic.{RecoversTo}
use kernel_hobby.Fs.Alloc.{build_bitmap}
use kernel_hobby.Fs.Inv.{entry, super_of, IsMounted}
use kernel_hobby.Fs.Read.{lookup, fs_read, file_bytes}
use kernel_hobby.Fs.Read.Laws.{read_blocks_ext}
use kernel_hobby.Fs.Read.Names.{lookup-lt}
use kernel_hobby.Fs.Mount.{clamp_total, clamp_files, load, fs_init}

-- The static variables at power-on, all zero, over a disk that holds an image.
abbrev pub boot : Image → Fs
boot m = record {
  disk = reboot m;
  dir = [];
  nfiles = 0;
  mounted = false;
  next_free = 0;
  total_blocks = 0;
  used = λ b. false;
  log_blk = [];
  log_overflow = false;
}

-- A superblock that `fs_init` accepts, of a disk of the given size.
abbrev pub IsSuperblock : ℕ → Block → Type 0
IsSuperblock total b = ((decode_super b).magic ≡ fs_magic) × ((decode_super b).total_blocks ≡ total)

-- `t` has the directory, the bitmap and the data blocks of `s`, and is ready for use.
pub record SameFiles (t s : Fs) : Type 0 where
  pub up : t.mounted ≡ true
  pub dir : t.dir ≡ s.dir
  pub nfiles : t.nfiles ≡ s.nfiles
  pub next_free : t.next_free ≡ s.next_free
  pub total_blocks : t.total_blocks ≡ s.total_blocks
  pub bitmap : t.used ≡ build_bitmap s.nfiles s.dir
  pub blocks : (x : ℕ) → datastart ≤ x → t.disk.image x ≡ s.disk.image x

clamp_files_le : (n : ℕ) → n ≤ maxfiles → clamp_files n ≡ n
unfolding clamp_files
clamp_files_le n h = ground arith

clamp_total_le : (n : ℕ) → 0 < n → n ≤ maxblk → clamp_total n ≡ n
unfolding clamp_total
clamp_total_le n pos h = ground arith

load-SameFiles :
    (total : ℕ) (d : Disk) (s0 s : Fs)
    → decode_super (d.image 0) ≡ super_of s
    → decode_dir maxfiles (d.image dirblock) ≡ s.dir
    → s.nfiles ≤ maxfiles
    → total ≡ s.total_blocks
    → ((x : ℕ) → datastart ≤ x → d.image x ≡ s.disk.image x)
    → SameFiles (load total d s0) s
unfolding load
load-SameFiles total d s0 s sup dir few t found =
    rw (sup, dir, clamp_files_le s.nfiles few)
      record {
        up = refl;
        dir = refl;
        nfiles = refl;
        next_free = refl;
        total_blocks = t;
        bitmap = refl;
        blocks = found;
      }

-- Mounting after recovery finds the files.
pub fs_init-SameFiles :
    {s : Fs} (m : Image)
    → IsMounted s
    → IsSuperblock s.total_blocks (m 0)
    → RecoversTo s.disk.image m
    → SameFiles (fs_init (boot m)) s
unfolding fs_init recovered
fs_init-SameFiles {s} m v k r =
    let found =
      load-SameFiles (clamp_total (decode_super (m 0)).total_blocks) (recover (reboot m)) (boot m) s
        (ap decode_super (r.found 0 (inl (omega arith))) ∙ v.super_saved)
        (ap (decode_dir maxfiles) (r.found dirblock (inl (omega arith))) ∙ v.dir_saved)
        v.directory.few (ap clamp_total k.1 ∙ clamp_total_le s.total_blocks v.total.0 v.total.1)
        (λ x le. r.found x (inr le)) in
    let accepted : ((decode_super (m 0)).magic == fs_magic) ≡ true = ground (arith, k.0) in
    rw accepted found

-- What is read of a file depends only on its entry and on the data blocks.
file_bytes-SameFiles :
    {t s : Fs} (i : ℕ)
    → IsMounted s
    → SameFiles t s
    → i < s.nfiles
    → file_bytes t.disk (entry s.dir i) ≡ file_bytes s.disk (entry s.dir i)
unfolding file_bytes
file_bytes-SameFiles {t} {s} i v same lt =
    let place = v.directory.placed i lt in
    let e = entry s.dir i in
    read_blocks_ext (e.size / bsize + 1) s.disk t.disk e.start e.size (omega (arith, place))
      (λ x lo hi. same.blocks x (omega (arith, place.behind_log, lo)))

-- Every name reads in `t` as it does in `s`.
pub fs_read-SameFiles :
    {t s : Fs} (name : List ℕ) (max : ℕ)
    → IsMounted s
    → SameFiles t s
    → fs_read t name max ≡ fs_read s name max
unfolding fs_read lookup
fs_read-SameFiles {t} {s} name max v same = elim (Option-cases (lookup s name)) [
  | inl gone ↦ rw (same.up, v.up, same.dir, same.nfiles, gone) refl
  | inr (i, e) ↦
      let bytes = file_bytes-SameFiles i v same (lookup-lt s name i e) in
      rw (same.up, v.up, same.dir, same.nfiles, e, same.dir, bytes) refl
]
