-- ===== src/Fs/Format/RoundTrip.antt =====
-- What fs.c writes to a metadata block is what it reads back from it.
use kernel_hobby.Base.{
  ℕ, zero, suc, ◌*◌, ◌≡◌, refl, ap, ◌∙◌, List, [], ◌∷◌, ◌++◌, arith, length, drop, get_or, sym, All,
  words, word_at, IsWord, gets, append_assoc, length-append, take-append, drop-append, word_at-fill,
  words_at-fill, fill_exact, word_at-two,
}
use kernel_hobby.Fs.Format.{
  Superblock, Dirent, Loghdr, namelen, logn, maxfiles, encode_super, decode_super, encode_loghdr,
  decode_loghdr, dir_bytes, encode_dir, decode_dir,
}

-- A superblock of 32-bit fields.
pub record IsSuper (sb : Superblock) : Type 0 where
  pub magic : IsWord sb.magic
  pub nfiles : IsWord sb.nfiles
  pub next_free : IsWord sb.next_free
  pub total_blocks : IsWord sb.total_blocks

-- An entry that its struct can hold.
pub record IsEntry (d : Dirent) : Type 0 where
  pub name : length d.name ≡ namelen
  pub size : IsWord d.size
  pub start : IsWord d.start

-- The superblock that was written is the one that is read.
pub decode_super-encode_super : (sb : Superblock) → IsSuper sb → decode_super (encode_super sb) ≡ sb
unfolding encode_super decode_super
decode_super-encode_super sb v = ground (
  arith,
  word_at-fill ws 0 512 fits,
  word_at-fill ws 1 512 fits,
  word_at-fill ws 2 512 fits,
  word_at-fill ws 3 512 fits,
)
  where
    ws : List ℕ
    ws = sb.magic ∷ sb.nfiles ∷ sb.next_free ∷ sb.total_blocks ∷ []

    fits : All IsWord ws
    fits = (v.magic, (v.nfiles, (v.next_free, (v.total_blocks, tt))))

gets-suc : (x : ℕ) (ws : List ℕ) (k n : ℕ) → gets (x ∷ ws) (suc k) n ≡ gets ws k n
gets-suc x ws k zero = refl
gets-suc x ws k (suc n) = ap (λ t. get_or ws k 0 ∷ t) (gets-suc x ws (suc k) n)

gets_all : (ws : List ℕ) (n : ℕ) → length ws ≡ n → gets ws 0 n ≡ ws
gets_all [] zero e = refl
gets_all (x ∷ ws) zero e = absurd (omega arith)
gets_all [] (suc n) e = absurd (omega arith)
gets_all (x ∷ ws) (suc n) e = ap (λ t. x ∷ t) (gets-suc x ws 0 n ∙ gets_all ws n (omega arith))

-- The log header that was written, with its whole array, is the one that is read.
pub decode_loghdr-encode_loghdr :
    (h : Loghdr)
    → IsWord h.committed
    → IsWord h.n
    → All IsWord h.blk
    → length h.blk ≡ logn
    → decode_loghdr (encode_loghdr h) ≡ h
unfolding encode_loghdr decode_loghdr
decode_loghdr-encode_loghdr h hc hn hb e = ground (
  arith,
  word_at-fill ws 0 512 fits,
  word_at-fill ws 1 512 fits,
  words_at-fill ws 2 16 512 fits,
  gets-suc h.committed (h.n ∷ h.blk) 1 16,
  gets-suc h.n h.blk 0 16,
  gets_all h.blk 16 e,
)
  where
    ws : List ℕ
    ws = h.committed ∷ h.n ∷ h.blk

    fits : All IsWord ws
    fits = (hc, (hn, hb))

length-dir_bytes : (ds : List Dirent) → All IsEntry ds → length (dir_bytes ds) ≡ 64 * length ds
unfolding dir_bytes words
length-dir_bytes [] v = refl
length-dir_bytes (d ∷ ds) v = omega (
  arith,
  length-append d.name (words (d.size ∷ d.start ∷ []) ++ dir_bytes ds),
  length-dir_bytes ds v.1,
  v.0.name,
)

-- The bytes of one entry, before those of the others.
module _ (d : Dirent) (rest : List ℕ) (v : IsEntry d) where
  tail_words : List ℕ
  tail_words = words (d.size ∷ d.start ∷ []) ++ rest

  drop-name : drop 56 (d.name ++ tail_words) ≡ tail_words
  drop-name = drop-append 56 d.name tail_words v.name

  drop-entry : drop 64 (d.name ++ tail_words) ≡ rest
  unfolding tail_words words
  drop-entry =
      ap (drop 64) (sym (append_assoc d.name (words (d.size ∷ d.start ∷ [])) rest))
      ∙ drop-append 64 (d.name ++ words (d.size ∷ d.start ∷ [])) rest
          (omega (arith, length-append d.name (words (d.size ∷ d.start ∷ [])), v.name))

  word_at-tail_words : (word_at tail_words 0 ≡ d.size) × (word_at tail_words 1 ≡ d.start)
  unfolding tail_words
  word_at-tail_words = word_at-two d.size d.start rest v.size v.start

  decode_entry : decode_dir 1 (d.name ++ tail_words) ≡ d ∷ []
  unfolding decode_dir
  decode_entry =
      rw drop-name (ground (arith, take-append 56 d.name tail_words v.name, word_at-tail_words))

decode_dir-dir_bytes :
    (ds : List Dirent) (n : ℕ) → All IsEntry ds → length ds ≡ n → decode_dir n (dir_bytes ds) ≡ ds
unfolding dir_bytes decode_dir tail_words
decode_dir-dir_bytes [] zero v e = refl
decode_dir-dir_bytes (d ∷ ds) zero v e = absurd (omega arith)
decode_dir-dir_bytes [] (suc n) v e = absurd (omega arith)
decode_dir-dir_bytes (d ∷ ds) (suc n) v e =
    rw (drop-entry d (dir_bytes ds) v.0) (
      ground
        (arith, decode_entry d (dir_bytes ds) v.0, decode_dir-dir_bytes ds n v.1 (omega arith)))

-- The directory that was written is the one that is read.
pub decode_dir-encode_dir :
    (ds : List Dirent)
    → All IsEntry ds
    → length ds ≡ maxfiles
    → decode_dir maxfiles (encode_dir ds) ≡ ds
unfolding encode_dir
decode_dir-encode_dir ds v e =
    rw (fill_exact 512 (dir_bytes ds) (length-dir_bytes ds v ∙ ap (λ n. 64 * n) e))
      (decode_dir-dir_bytes ds 8 v e)
