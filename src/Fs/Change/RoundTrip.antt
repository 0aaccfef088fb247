-- ===== src/Fs/Change/RoundTrip.antt =====
-- Reading after fs_create: the new file, and the others.
use kernel_hobby.Base.{
  ℕ, zero, suc, ◌+◌, ◌-◌, ◌/◌, ◌≤◌, ◌<◌, ◌^◌, ◌≡◌, ◌≢◌, inl, inr, refl, sym, ◌∙◌, true, false, List,
  [], ◌∷◌, none, some, arith, length, drop, fill, All, ltb, if◌then◌else◌, Bool-cases, update,
  update_self,
}
use native.Mathlib.Numerals.{add-one}
use kernel_hobby.Fs.Format.{Dirent, bsize, namelen, datastart}
use kernel_hobby.Fs.Disk.{Image}
use kernel_hobby.Fs.State.{Fs, streq}
use kernel_hobby.Fs.Log.Install.{applied}
use kernel_hobby.Fs.Alloc.{blocks_of}
use kernel_hobby.Fs.Alloc.Laws.{within, blocks_of_lem}
use kernel_hobby.Fs.Read.{lookup, file_bytes, fs_read, too_large}
use kernel_hobby.Fs.Read.Names.{lookup-lt, find_more_some, find_more_none}
use kernel_hobby.Fs.Read.Laws.{Holds, read_blocks-Holds, read_blocks_ext}
use kernel_hobby.Fs.Inv.{entry, Owns, IsPlaced, IsMounted}
use kernel_hobby.Fs.Change.{copy_name, create_at}
use kernel_hobby.Fs.Change.Transaction.{data_writes}
use kernel_hobby.Fs.Change.Effect.{applied-data_low, applied-data_high}
use kernel_hobby.Fs.Change.Memory.{entry_old, entry_new, IsEntry-entry}
use kernel_hobby.Fs.Change.Create
use kernel_hobby.Fs.Change.CreateInv

-- A name as a C string: no byte of it is 0.
abbrev pub IsText : List ℕ → Type 0
IsText = All (λ c. c ≢ 0)

-- A name that fits in the entry is found there.
pub streq-copy_name :
    (n : ℕ) (name old : List ℕ)
    → IsText name
    → length name ≤ n
    → n < length old
    → streq (copy_name n name old) name ≡ true
unfolding streq copy_name
streq-copy_name n name [] t le lo = absurd (omega arith)
streq-copy_name zero [] (x ∷ old) t le lo = refl
streq-copy_name zero (c ∷ name) (x ∷ old) t le lo = absurd (omega arith)
streq-copy_name (suc n) [] (x ∷ old) t le lo = refl
streq-copy_name (suc n) (c ∷ name) (x ∷ old) t le lo =
    ground (arith, streq-copy_name n name old t.1, t.0)

-- A longer one is cut off, and is not found.
pub streq-copy_name_long :
    (n : ℕ) (name old : List ℕ)
    → IsText name
    → n < length name
    → n < length old
    → streq (copy_name n name old) name ≡ false
unfolding streq copy_name
streq-copy_name_long n name [] t le lo = absurd (omega arith)
streq-copy_name_long n [] (x ∷ old) t le lo = absurd (omega arith)
streq-copy_name_long zero (c ∷ name) (x ∷ old) t le lo = ground (arith, t.0)
streq-copy_name_long (suc n) (c ∷ name) (x ∷ old) t le lo =
    ground (arith, streq-copy_name_long n name old t.1, t.0)

-- The data of the transaction, in place.
Holds-data_writes :
    (n dst : ℕ) (contents : List ℕ) (m m' : Image)
    → ((x : ℕ) → dst ≤ x → x < dst + n → m' x ≡ applied (data_writes n dst contents) m x)
    → Holds n dst contents m'
unfolding data_writes applied
Holds-data_writes zero dst contents m m' h = tt
Holds-data_writes (suc n) dst contents m m' h = (
  h dst (omega arith) (omega arith)
      ∙ applied-data_low n (suc dst) (drop bsize contents) (update m dst (fill bsize contents)) dst
          (omega arith)
      ∙ update_self m dst (fill bsize contents),
  Holds-data_writes n (suc dst) (drop bsize contents) (update m dst (fill bsize contents)) m'
      (λ x lo hi. h x (omega arith) (omega arith)),
)

pub fs_read_lem :
    (s : Fs) (name : List ℕ) (max i : ℕ)
    → s.mounted ≡ true
    → lookup s name ≡ some i
    → fs_read s name max ≡ (
        if too_large (entry s.dir i).size max
        then none
        else some (file_bytes s.disk (entry s.dir i)))
unfolding fs_read
fs_read_lem s name max i up h = ground arith

module _ (name contents : List ℕ) (s : Fs) (start : ℕ) (int_size : length contents < 2 ^ 31)
    (v : IsMounted s) (now : s.disk.history ≡ []) (c : Create.Creates name contents s start) where
  abbrev done : Fs
  done = create_at name contents start (blocks_of (length contents)) s

  abbrev fresh_entry : Dirent
  fresh_entry = Create.new_entry name contents s start int_size v now c

  abbrev old_name : List ℕ
  old_name = (entry s.dir s.nfiles).name

  length-old_name : length old_name ≡ namelen
  length-old_name = (IsEntry-entry s.dir s.nfiles v.directory.entries).name

  entry-old : (i : ℕ) → i < s.nfiles → entry done.dir i ≡ entry s.dir i
  entry-old i lt =
      rw (Create.dir-create_at name contents s start int_size v now c)
        (entry_old v.directory c.room fresh_entry i lt)

  entry-new : entry done.dir s.nfiles ≡ fresh_entry
  entry-new =
      rw (Create.dir-create_at name contents s start int_size v now c)
        (entry_new v.directory c.room fresh_entry)

  -- The name of the new file is looked up last.
  lookup-new :
      lookup done name
      ≡ (if streq (copy_name (namelen - 1) name old_name) name then some s.nfiles else none)
  unfolding lookup
  lookup-new =
      rw (Create.nfiles-create_at name contents s start int_size v now c, add-one)
        (find_more_none s.nfiles 0 s.nfiles s.dir done.dir name (omega arith)
            (λ j lo hi. entry-old j (omega arith)) (unfold lookup in c.absent)
          ∙ rw entry-new)

  lookup-old : (other : List ℕ) (i : ℕ) → lookup s other ≡ some i → lookup done other ≡ some i
  unfolding lookup
  lookup-old other i h =
      rw (Create.nfiles-create_at name contents s start int_size v now c, add-one)
        (find_more_some s.nfiles 0 s.dir done.dir other i (λ j lo hi. entry-old j (omega arith)) h)

  bytes-new : file_bytes done.disk fresh_entry ≡ contents
  unfolding file_bytes
  bytes-new =
      read_blocks-Holds (length contents / bsize + 1) (blocks_of (length contents)) done.disk start
        contents
        (Holds-data_writes (blocks_of (length contents)) start contents s.disk.image done.disk.image
          (λ x lo hi.
            Create.data-create_at name contents s start int_size v now c x
              (omega (arith, c.place.lo))))
        (omega (arith, rounded)) (omega (arith, rounded)) (omega (arith, c.place.hi))
    where
      rounded : blocks_of (length contents) ≡ (length contents + 511) / 512
      rounded = blocks_of_lem (length contents) (omega arith)

  -- Every block of an older file is as before.
  image-old : (i x : ℕ) → i < s.nfiles → Owns (entry s.dir i) x → done.disk.image x ≡ s.disk.image x
  image-old i x lt o =
      Create.data-create_at name contents s start int_size v now c x behind
      ∙ elim (Bool-cases (ltb x start)) [
        | inl low ↦
            applied-data_low (blocks_of (length contents)) start contents s.disk.image x
              (ground arith)
        | inr high ↦
            applied-data_high (blocks_of (length contents)) start contents s.disk.image x
              (ground (arith, others))
      ]
    where
      behind : datastart ≤ x
      behind = ground (arith, (v.directory.placed i lt).behind_log)

      others : within start (blocks_of (length contents)) x ≢ true
      others q = CreateInv.fresh-apart name contents s start int_size v now c i x lt o q

  bytes-old :
      (i : ℕ)
      → i < s.nfiles
      → file_bytes done.disk (entry s.dir i) ≡ file_bytes s.disk (entry s.dir i)
  unfolding file_bytes
  bytes-old i lt =
      read_blocks_ext (e.size / bsize + 1) s.disk done.disk e.start e.size (omega (arith, place))
        (λ x lo hi. image-old i x lt (ground (arith, blocks_of_lem e.size place.small)))
    where
      e : Dirent
      e = entry s.dir i

      place : IsPlaced e
      place = v.directory.placed i lt

  pub reading-new :
      (max : ℕ)
      → IsText name
      → length name < namelen
      → length contents ≤ max
      → fs_read done name max ≡ some contents
  unfolding fs_read too_large
  reading-new max t short fits =
      let found : lookup done name ≡ some s.nfiles =
        lookup-new
        ∙ rw (
            streq-copy_name (namelen - 1) name old_name t (omega arith)
              (omega (arith, length-old_name))) in
      rw
        (
          Create.mounted-create_at name contents s start int_size v now c,
          found,
          entry-new,
          bytes-new,
        )
        (ground arith)

  pub lookup-long : IsText name → namelen ≤ length name → lookup done name ≡ none
  lookup-long t long =
      lookup-new
      ∙ rw (
          streq-copy_name_long (namelen - 1) name old_name t (omega arith)
            (omega (arith, length-old_name)))

  pub reading-old :
      (other : List ℕ) (max i : ℕ)
      → lookup s other ≡ some i
      → fs_read done other max ≡ fs_read s other max
  reading-old other max i h =
      let bound = lookup-lt s other i h in
      fs_read_lem done other max i (Create.mounted-create_at name contents s start int_size v now c)
        (lookup-old other i h)
      ∙ rw (entry-old i bound, bytes-old i bound) refl
      ∙ sym (fs_read_lem s other max i v.up h)
