-- ===== src/Fs/Read/Laws.antt =====
-- Reading the blocks of a file gives its bytes.
use kernel_hobby.Base.{
  ℕ, zero, suc, ◌+◌, ◌-◌, ◌≤◌, ◌<◌, ◌^◌, ◌≡◌, ◌≢◌, refl, ap, ap₂, sym, ◌∙◌, false, List, [], ◌∷◌,
  ◌++◌, arith, length, length-drop, take, drop, fill, u32, ltb, ◌==◌, ◌*◌, Bool-cases, inl, inr,
  if◌then◌else◌,
}
use native.Mathlib.Numerals.{add-one}
use kernel_hobby.Fs.Format.{bsize}
use kernel_hobby.Fs.Disk.{Image, Disk}
use kernel_hobby.Fs.Read.{read_blocks}

take-append-drop : (n : ℕ) (xs : List ℕ) → take n xs ++ drop n xs ≡ xs
take-append-drop zero xs = refl
take-append-drop (suc n) [] = refl
take-append-drop (suc n) (x ∷ xs) = ap (λ t. x ∷ t) (take-append-drop n xs)

-- The blocks from `b` on hold the bytes, 512 to a block, the last block padded.
abbrev pub Holds : ℕ → ℕ → List ℕ → Image → Type 0
Holds zero b contents m = Unit
Holds (suc n) b contents m = (m b ≡ fill bsize contents) × Holds n (suc b) (drop bsize contents) m

take-fill : (k n : ℕ) (xs : List ℕ) → k ≤ n → k ≤ length xs → take k (fill n xs) ≡ take k xs
unfolding fill
take-fill zero n xs le lx = refl
take-fill (suc k) zero xs le lx = absurd (omega arith)
take-fill (suc k) (suc n) [] le lx = absurd (omega arith)
take-fill (suc k) (suc n) (x ∷ xs) le lx =
    ap (λ t. x ∷ t) (take-fill k n xs (omega arith) (omega arith))

take_whole : (xs : List ℕ) (n : ℕ) → length xs ≤ n → take (length xs) xs ++ drop n xs ≡ xs
take_whole [] zero h = refl
take_whole [] (suc n) h = refl
take_whole (x ∷ xs) zero h = absurd (omega arith)
take_whole (x ∷ xs) (suc n) h = ap (λ t. x ∷ t) (take_whole xs n (omega arith))

-- the bytes that a round takes
abbrev chunk : ℕ → ℕ
chunk remaining = if ltb bsize remaining then bsize else remaining

read_blocks_zero : (f : ℕ) (d : Disk) (b : ℕ) → read_blocks f d b 0 ≡ []
unfolding read_blocks
read_blocks_zero zero d b = refl
read_blocks_zero (suc f) d b = refl

read_blocks_round :
    (f : ℕ) (d : Disk) (b remaining : ℕ)
    → remaining ≢ 0
    → b + 1 < 2 ^ 32
    → read_blocks (suc f) d b remaining
      ≡ take (chunk remaining) (d.image b) ++ read_blocks f d (b + 1) (remaining - chunk remaining)
unfolding read_blocks
read_blocks_round f d b remaining ne w =
    let same : u32 (b + 1) ≡ b + 1 = omega arith in
    let no_end : (remaining == 0) ≡ false = ground arith in rw (no_end, same)

-- The part of a file in one block, and the rest.
chunk_split :
    (contents : List ℕ)
    → take (chunk (length contents)) (fill bsize contents) ++ drop bsize contents ≡ contents
chunk_split contents = elim (Bool-cases (ltb bsize (length contents))) [
  | inl more ↦
      rw (more, take-fill bsize bsize contents (omega arith) (ground arith))
        (take-append-drop bsize contents)
  | inr last ↦
      rw (last, take-fill (length contents) bsize contents (ground arith) (omega arith))
        (take_whole contents bsize (ground arith))
]

sub-chunk : (n : ℕ) → n - chunk n ≡ n - bsize
sub-chunk n = ground arith

chunk_rest :
    (contents : List ℕ) → length contents - chunk (length contents) ≡ length (drop bsize contents)
chunk_rest contents = sub-chunk (length contents) ∙ sym (length-drop bsize contents)

-- The loop reads back what the blocks hold.
pub read_blocks-Holds :
    (f n : ℕ) (d : Disk) (b : ℕ) (contents : List ℕ)
    → Holds n b contents d.image
    → length contents ≤ bsize * n
    → n ≤ f
    → b + n < 2 ^ 32
    → read_blocks f d b (length contents) ≡ contents
read_blocks-Holds f n d b [] h fits fuel word = read_blocks_zero f d b
read_blocks-Holds f zero d b (x ∷ xs) h fits fuel word = absurd (omega arith)
read_blocks-Holds zero (suc n) d b (x ∷ xs) h fits fuel word = absurd (omega arith)
read_blocks-Holds (suc f) (suc n) d b (x ∷ xs) h fits fuel word =
    read_blocks_round f d b (suc (length xs)) (omega arith) (omega arith)
    ∙ ap₂ ◌++◌ (ap (take (chunk (suc (length xs)))) h.0) (
        ap (read_blocks f d (b + 1)) (chunk_rest (x ∷ xs))
        ∙ read_blocks-Holds f n d (b + 1) (drop bsize (x ∷ xs)) (rw add-one h.1)
            (omega (arith, length-drop bsize (x ∷ xs))) (omega arith) (omega arith))
    ∙ chunk_split (x ∷ xs)

-- The loop depends only on the blocks of the file.
pub read_blocks_ext :
    (f : ℕ) (d d' : Disk) (b size : ℕ)
    → b + f < 2 ^ 32
    → ((x : ℕ) → b ≤ x → bsize * x < bsize * b + size → d'.image x ≡ d.image x)
    → read_blocks f d' b size ≡ read_blocks f d b size
read_blocks_ext f d d' b zero w h = read_blocks_zero f d' b ∙ sym (read_blocks_zero f d b)
read_blocks_ext zero d d' b (suc size) w h = unfold read_blocks in refl
read_blocks_ext (suc f) d d' b (suc size) w h =
    read_blocks_round f d' b (suc size) (omega arith) (omega arith)
    ∙ ap₂ ◌++◌ (ap (take (chunk (suc size))) (h b (omega arith) (omega arith))) (
        read_blocks_ext f d d' (b + 1) (suc size - chunk (suc size)) (omega arith)
          (λ x lo hi. h x (omega arith) (ground arith)))
    ∙ sym (read_blocks_round f d b (suc size) (omega arith) (omega arith))
