-- ===== src/Net/Ip/Valid.antt =====
-- src/net.c: the checksums, against the sum of sixteen-bit words in ones' complement.
use kernel_hobby.Base.{
  ℕ, zero, suc, ◌+◌, ◌-◌, ◌*◌, ◌/◌, ◌%◌, ◌^◌, ◌<◌, ◌≡◌, refl, sym, ◌∙◌, ap, arith, List, [], ◌∷◌,
  length, All, get_or, Bool-cases, inl, inr, ◌==◌,
}
use kernel_hobby.Net.Bytes.{Ip4, get16, ip_bytes}
use kernel_hobby.Net.Checksum.{add_words, add_bytes, fold, fold_from, complement, cksum, buffer}
use kernel_hobby.Net.Ip.{ip_fields, ip_header}

-- The sum of the words of a list of bytes; a last byte alone is the high half of a word.
unfoldable pub word_sum : List ℕ → ℕ
word_sum [] = 0
word_sum (a ∷ []) = a * 256
word_sum (a ∷ b ∷ bs) = a * 256 + b + word_sum bs

add_words-shift :
    (n a b : ℕ) (bs : List ℕ) (p sum : ℕ)
    → add_words n (buffer (a ∷ b ∷ bs)) (p + 2) sum ≡ add_words n (buffer bs) p sum
unfolding add_words
add_words-shift zero a b bs p sum = refl
add_words-shift (suc n) a b bs p sum =
    let e0 : p + 2 ≡ suc (suc p) = omega arith in
    let e1 : p + 2 + 1 ≡ suc (suc (p + 1)) = omega arith in
    rw (ap (get_or (a ∷ b ∷ bs)) e0, ap (get_or (a ∷ b ∷ bs)) e1)
      (add_words-shift n a b bs (p + 2) ((sum + get16 (buffer bs) p) % 2 ^ 32))

-- The loop of the code computes the sum, modulo 2 ^ 32.
pub add_bytes_lem :
    (bs : List ℕ) (sum : ℕ)
    → sum < 2 ^ 32
    → add_bytes (buffer bs) 0 (length bs) sum ≡ (sum + word_sum bs) % 2 ^ 32
unfolding add_bytes add_words word_sum
add_bytes_lem [] sum h = omega arith
add_bytes_lem (a ∷ []) sum h = refl
add_bytes_lem (a ∷ b ∷ bs) sum h =
    let next = (sum + (a * 256 + b)) % 2 ^ 32 in
    let half : length (a ∷ b ∷ bs) / 2 ≡ suc (length bs / 2) = omega arith in
    let parity : length (a ∷ b ∷ bs) % 2 ≡ length bs % 2 = omega arith in
    let even : add_words (length (a ∷ b ∷ bs) / 2) (buffer (a ∷ b ∷ bs)) 0 sum
        ≡ add_words (length bs / 2) (buffer bs) 0 next =
      ap (λ n. add_words n (buffer (a ∷ b ∷ bs)) 0 sum) half
      ∙ add_words-shift (length bs / 2) a b bs 0 next in
    let ih = add_bytes_lem bs next (omega arith) in
    let total : (next + word_sum bs) % 2 ^ 32 ≡ (sum + (a * 256 + b + word_sum bs)) % 2 ^ 32 =
      omega arith in
    elim (Bool-cases (length bs % 2 == 1)) [
      | inl odd ↦
          let index : 0 + length (a ∷ b ∷ bs) - 1 ≡ suc (suc (length bs - 1)) =
            ground (arith, odd) in
          let last : buffer (a ∷ b ∷ bs) (0 + length (a ∷ b ∷ bs) - 1)
              ≡ buffer bs (0 + length bs - 1) =
            ap (buffer (a ∷ b ∷ bs)) index ∙ ap (buffer bs) (omega arith) in
          let here : add_bytes (buffer bs) 0 (length bs) next
              ≡ (add_words (length bs / 2) (buffer bs) 0 next + buffer bs (0 + length bs - 1) * 256)
                % 2 ^ 32 =
            rw (add_bytes, odd) refl in
          rw (add_bytes, parity, odd, even, last) (sym here ∙ ih ∙ total)
      | inr even_length ↦
          let here : add_bytes (buffer bs) 0 (length bs) next
              ≡ add_words (length bs / 2) (buffer bs) 0 next =
            rw (add_bytes, even_length) refl in
          rw (add_bytes, parity, even_length, even) (sym here ∙ ih ∙ total)
    ]

-- The fold keeps the sum modulo 65535, brings it below 65536, and is 0 only for 0.
pub fold_lem :
    (sum : ℕ)
    → sum < 2 ^ 32
    → (fold sum < 65536) × (fold sum % 65535 ≡ sum % 65535) × (0 < sum → 0 < fold sum)
unfolding fold_from
fold_lem sum h = ground arith

-- Sums that differ by a checksum made from one of them: the other folds to all ones.
pub fold-complement :
    (sum : ℕ) → 0 < sum → sum < 2 ^ 31 → fold (sum + complement (fold sum)) ≡ 65535
fold-complement sum pos h =
    let f = fold_lem sum (omega arith) in
    let g = fold_lem (sum + complement (fold sum)) (omega arith) in omega (arith, f, g)

-- the sum of a header, for any checksum in it
ip_sum :
    (proto total : ℕ) (dst : Ip4) (c : ℕ)
    → c < 65536
    → word_sum (ip_fields proto total dst c) ≡ word_sum (ip_fields proto total dst 0) + c
unfolding word_sum
ip_sum proto total dst c h = omega arith

ip_sum_bounds :
    (proto total : ℕ) (dst : Ip4)
    → proto < 256
    → All (λ b. b < 256) (ip_bytes dst)
    → (0 < word_sum (ip_fields proto total dst 0))
      × (word_sum (ip_fields proto total dst 0) < 2 ^ 30)
unfolding word_sum
ip_sum_bounds proto total dst p d = omega arith

cksum_lem :
    (bs : List ℕ)
    → word_sum bs < 2 ^ 31
    → cksum (buffer bs) (length bs) ≡ complement (fold (word_sum bs))
unfolding cksum
cksum_lem bs h = ap (λ s. complement (fold s)) (add_bytes_lem bs 0 (omega arith) ∙ omega arith)

-- The header that every packet gets, whatever its length, passes the check of a receiver: its own checksum
-- is 0.
pub cksum-ip_header :
    (proto total : ℕ) (dst : Ip4)
    → proto < 256
    → All (λ b. b < 256) (ip_bytes dst)
    → cksum (buffer (ip_header proto total dst)) 20 ≡ 0
unfolding ip_header
cksum-ip_header proto total dst p d =
    let base = word_sum (ip_fields proto total dst 0) in
    let bounds = ip_sum_bounds proto total dst p d in
    let c = cksum (buffer (ip_fields proto total dst 0)) 20 in
    let made : c ≡ complement (fold base) =
      cksum_lem (ip_fields proto total dst 0) (omega (arith, bounds)) in
    let sum : word_sum (ip_fields proto total dst c) ≡ base + c =
      ip_sum proto total dst c (omega (arith, made)) in
    let ones = fold-complement base bounds.0 (omega (arith, bounds)) in
    cksum_lem (ip_fields proto total dst c) (omega (arith, sum, bounds, made))
    ∙ ap (λ s. complement (fold s)) (sum ∙ ap (λ n. base + n) made)
    ∙ ap complement ones
