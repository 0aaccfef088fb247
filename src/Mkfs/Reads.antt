-- ===== src/Mkfs/Reads.antt =====
-- tools/mkfs.c and fs_read of src/fs.c: the kernel reads back the files that the image was made of.
use kernel_hobby.Base.{
  ℕ, zero, suc, ◌+◌, ◌-◌, ◌*◌, ◌/◌, ◌≤◌, ◌<◌, ◌^◌, ◌≡◌, refl, append_assoc, subst, sym, ◌∙◌, ap,
  arith, true, false, some, List, [], ◌∷◌, ◌++◌, length, length-drop, take, take_all, drop,
  replicate, get_or, fill, u32, ◌==◌,
}
use kernel_hobby.Base.Segments.{Carries, Carries-left, Carries-right}
use kernel_hobby.Fs.Format.{Block, bsize, namelen, maxfiles, datastart}
use kernel_hobby.Fs.Disk.{Image}
use kernel_hobby.Fs.State.{streq, maxblk}
use kernel_hobby.Fs.Alloc.{blocks_of}
use kernel_hobby.Fs.Read.{lookup, too_large, file_bytes, fs_read}
use kernel_hobby.Fs.Read.Laws.{Holds, read_blocks-Holds}
use kernel_hobby.Fs.Inv.{entry}
use kernel_hobby.Fs.Change.RoundTrip.{IsText, fs_read_lem}
use kernel_hobby.Fs.Mount.{fs_init}
use kernel_hobby.Fs.Mount.Laws.{boot}
use kernel_hobby.Mkfs.{
  SourceFile, base_name, name_field, dirents, next_block, directory, file_blocks, blocks_of_file,
  data_blocks, last_block, disk_size, image_blocks, image_of, mkfs, zero_block,
}
use kernel_hobby.Mkfs.Layout.{
  nothing, count, FilesFit, directory_entry, directory-IsDirectory, next_block_lem,
}
use kernel_hobby.Mkfs.Lookup.{find_first, streq-name_field}
use kernel_hobby.Mkfs.Mounts.{image, mounted_state, fs_init-image, mkfs_made}

-- the file number `i`
abbrev pub file : List SourceFile → ℕ → SourceFile
file files i = get_or files i nothing

-- the blocks of a file hold it
file_blocks-Holds :
    (n : ℕ) (contents : List ℕ) (p : ℕ) (m : Image)
    → Carries zero_block m p (file_blocks n contents)
    → Holds (length (file_blocks n contents)) p contents m
unfolding file_blocks
file_blocks-Holds zero contents p m h = tt
file_blocks-Holds (suc n) [] p m h = tt
file_blocks-Holds (suc n) (x ∷ xs) p m h =
    let contents = x ∷ xs in
    let going : (length contents == 0) ≡ false = ground arith in
    let e : file_blocks (suc n) contents
        ≡ fill bsize contents ∷ file_blocks n (drop bsize contents) =
      rw (file_blocks, going) refl in
    let h' = subst (Carries zero_block m p) e h in
    let here : p ≡ p + 0 = omega arith in
    let next : p + 1 ≡ suc p = omega arith in
    let rest : Carries zero_block m (suc p) (file_blocks n (drop bsize contents)) =
      subst (λ q. Carries zero_block m q (file_blocks n (drop bsize contents))) next
        (Carries-right zero_block m p (fill bsize contents ∷ [])
          (file_blocks n (drop bsize contents)) h') in
    subst (λ bs. Holds (length bs) p contents m) (sym e)
      (ap m here ∙ h' 0 (omega arith), file_blocks-Holds n (drop bsize contents) (suc p) m rest)

length-file_blocks :
    (n : ℕ) (contents : List ℕ)
    → length contents ≤ 512 * n
    → length (file_blocks n contents) ≡ (length contents + 511) / 512
unfolding file_blocks
length-file_blocks zero contents h = omega arith
length-file_blocks (suc n) [] h = omega arith
length-file_blocks (suc n) (x ∷ xs) h =
    let contents = x ∷ xs in
    let going : (length contents == 0) ≡ false = ground arith in
    let size = length-drop bsize contents in
    let rest = length-file_blocks n (drop bsize contents) (omega arith) in
    rw (file_blocks, going) (omega arith)

blocks_of_file_eq :
    (f : SourceFile)
    → length f.contents < 2 ^ 31
    → blocks_of_file f ≡ file_blocks (length f.contents / bsize + 1) f.contents
blocks_of_file_eq f small =
    let size : u32 (length f.contents) ≡ length f.contents = omega arith in
    rw (size, take_all (length f.contents) f.contents (omega arith)) refl

-- Each file has its blocks from its start on.
data_blocks-Carries :
    (cur : ℕ) (fs : List SourceFile) (rest : List Block) (m : Image) (i : ℕ)
    → FilesFit cur fs
    → i < length fs
    → Carries zero_block m cur (data_blocks fs ++ rest)
    → Carries zero_block m (entry (dirents cur fs) i).start (blocks_of_file (file fs i))
data_blocks-Carries cur [] rest m i fit lt h = absurd (omega arith)
data_blocks-Carries cur (f ∷ fs) rest m zero fit lt h =
    Carries-left zero_block m cur (blocks_of_file f) (data_blocks fs ++ rest)
      (subst (Carries zero_block m cur) (append_assoc (blocks_of_file f) (data_blocks fs) rest) h)
data_blocks-Carries cur (f ∷ fs) rest m (suc i) (small, inside, fit) lt h =
    let whole =
      subst (Carries zero_block m cur) (append_assoc (blocks_of_file f) (data_blocks fs) rest) h in
    let size : length (blocks_of_file f) ≡ count f =
      ap length (blocks_of_file_eq f small)
      ∙ length-file_blocks (length f.contents / bsize + 1) f.contents (omega arith) in
    let behind = Carries-right zero_block m cur (blocks_of_file f) (data_blocks fs ++ rest) whole in
    let behind' : Carries zero_block m (cur + count f) (data_blocks fs ++ rest) =
      subst (λ k. Carries zero_block m (cur + k) (data_blocks fs ++ rest)) size behind in
    rw (next_block_lem cur f inside)
      (data_blocks-Carries (cur + count f) fs rest m i fit (omega arith) behind')

dirents-size :
    (cur : ℕ) (fs : List SourceFile) (i : ℕ)
    → i < length fs
    → (entry (dirents cur fs) i).size ≡ u32 (length (file fs i).contents)
dirents-size cur [] i lt = absurd (omega arith)
dirents-size cur (f ∷ fs) zero lt = refl
dirents-size cur (f ∷ fs) (suc i) lt = dirents-size (next_block cur f) fs i (omega arith)

dirents-name :
    (cur : ℕ) (fs : List SourceFile) (i : ℕ)
    → i < length fs
    → (entry (dirents cur fs) i).name ≡ name_field (file fs i).path
dirents-name cur [] i lt = absurd (omega arith)
dirents-name cur (f ∷ fs) zero lt = refl
dirents-name cur (f ∷ fs) (suc i) lt = dirents-name (next_block cur f) fs i (omega arith)

FilesFit-small :
    (cur : ℕ) (fs : List SourceFile) (i : ℕ)
    → FilesFit cur fs
    → i < length fs
    → length (file fs i).contents < 2 ^ 31
FilesFit-small cur [] i fit lt = absurd (omega arith)
FilesFit-small cur (f ∷ fs) zero (small, inside, fit) lt = small
FilesFit-small cur (f ∷ fs) (suc i) (small, inside, fit) lt =
    FilesFit-small (cur + count f) fs i fit (omega arith)

image-Carries :
    (files : List SourceFile)
    → Carries zero_block (image files) datastart (
        data_blocks files
        ++ replicate
            (disk_size (last_block datastart files) - last_block datastart files)
            zero_block)
unfolding image_blocks
image-Carries files i lt =
    let head = take datastart (image_blocks files) in
    let rest =
      data_blocks files
      ++ replicate (disk_size (last_block datastart files) - last_block datastart files)
          zero_block in
    Carries-right zero_block (image files) 0 head rest
      (λ j h. let e : 0 + j ≡ j = omega arith in ap (image files) e) i lt

-- the bytes that the kernel reads of file number `i`
file_bytes-image :
    (files : List SourceFile) (i : ℕ)
    → FilesFit datastart files
    → length files ≤ maxfiles
    → i < length files
    → file_bytes (mounted_state files).disk (entry (directory files) i) ≡ (file files i).contents
unfolding file_bytes
file_bytes-image files i fit few lt =
    let f = file files i in
    let e = entry (directory files) i in
    let small = FilesFit-small datastart files i fit lt in
    let size : e.size ≡ length f.contents =
      ap (λ d. d.size) (directory_entry files i lt)
      ∙ dirents-size datastart files i lt
      ∙ omega arith in
    let placed = ((directory-IsDirectory files fit few).placed i lt).within_map in
    let blocks : blocks_of e.size ≤ maxblk = omega arith in
    let n = length (file_blocks (length f.contents / bsize + 1) f.contents) in
    let count_of : n ≡ (length f.contents + 511) / 512 =
      length-file_blocks (length f.contents / bsize + 1) f.contents (omega arith) in
    let carried =
      data_blocks-Carries datastart files
        (replicate (disk_size (last_block datastart files) - last_block datastart files) zero_block)
        (image files) i fit lt (image-Carries files) in
    let held = file_blocks-Holds (length f.contents / bsize + 1) f.contents e.start (image files) (
      subst
        (λ s.
          Carries zero_block (image files) s
            (file_blocks (length f.contents / bsize + 1) f.contents))
        (sym (ap (λ d. d.start) (directory_entry files i lt)))
        (subst (Carries zero_block (image files) (entry (dirents datastart files) i).start)
          (blocks_of_file_eq f small) carried)) in
    rw size (
      read_blocks-Holds (length f.contents / bsize + 1) n (mounted_state files).disk e.start
        f.contents held (omega arith) (omega arith) (omega arith))

-- Of the image that mkfs makes of files that fit, the kernel reads each file back whole, under the last part
-- of its path, when that has at most 55 bytes, none of them 0, and is not the name of a file before it, and
-- the buffer is large enough.
pub mkfs-fs_read :
    (files : List SourceFile) (blocks : List Block) (i max : ℕ)
    → mkfs files ≡ some blocks
    → FilesFit datastart files
    → i < length files
    → IsText (base_name (file files i).path)
    → length (base_name (file files i).path) < namelen
    → ((j : ℕ)
        → j < i
        → streq (name_field (file files j).path) (base_name (file files i).path) ≡ false)
    → length (file files i).contents ≤ max
    → fs_read (fs_init (boot (image_of blocks))) (base_name (file files i).path) max
      ≡ some (file files i).contents
unfolding lookup too_large
mkfs-fs_read files blocks i max h fit lt text short others room =
    let (few, made) = mkfs_made files blocks h in
    let f = file files i in
    let name = base_name f.path in
    let small = FilesFit-small datastart files i fit lt in
    let named : (j : ℕ)
        → j < length files
        → (entry (directory files) j).name ≡ name_field (file files j).path =
      λ j h. ap (λ d. d.name) (directory_entry files j h) ∙ dirents-name datastart files j h in
    let zero_plus : (j : ℕ) → 0 + j ≡ j = λ j. omega arith in
    let before : (j : ℕ) → j < i → streq (entry (directory files) (0 + j)).name name ≡ false =
      λ j h.
        ap (λ q. streq (entry (directory files) q).name name) (zero_plus j)
        ∙ ap (λ q. streq q name) (named j (omega arith))
        ∙ others j h in
    let here : streq (entry (directory files) (0 + i)).name name ≡ true =
      ap (λ q. streq (entry (directory files) q).name name) (zero_plus i)
      ∙ ap (λ q. streq q name) (named i lt)
      ∙ streq-name_field f.path text short in
    let found =
      find_first (length files) 0 i (directory files) name lt before here ∙ ap some (zero_plus i) in
    let size : (entry (directory files) i).size ≡ length f.contents =
      ap (λ d. d.size) (directory_entry files i lt)
      ∙ dirents-size datastart files i lt
      ∙ omega arith in
    let fits : too_large (entry (directory files) i).size max ≡ false = rw size (ground arith) in
    ap (λ bs. fs_read (fs_init (boot (image_of bs))) name max) made
    ∙ ap (λ s. fs_read s name max) (fs_init-image files fit few)
    ∙ fs_read_lem (mounted_state files) name max i refl found
    ∙ rw fits (ap some (file_bytes-image files i fit few lt))
