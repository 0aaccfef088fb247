-- ===== src/Uart/Digits.antt =====
-- src/uart.c: the numbers that uart_dec and uart_hex send can be read back.
use kernel_hobby.Base.{
  ℕ, zero, suc, ◌+◌, ◌-◌, ◌*◌, ◌/◌, ◌%◌, ◌^◌, ◌<◌, ◌≤◌, ◌≡◌, refl, sym, ◌∙◌, ap, arith, List, [],
  ◌∷◌, length, ltb, ◌==◌, if◌then◌else◌, Bool-cases, inl, inr,
}
use native.Mathlib.Nat.{pow-suc, div-div-eq-div-mul}
use kernel_hobby.Uart.{dec_loop, dec_bytes, hex_digit, hex_loop}

-- a number read digit by digit, after a part of it
abbrev pub read_dec : ℕ → List ℕ → ℕ
read_dec acc [] = acc
read_dec acc (c ∷ cs) = read_dec (acc * 10 + (c - b'0')) cs

abbrev pub hex_value : ℕ → ℕ
hex_value c = if ltb c b'a' then c - b'0' else c - b'a' + 10

abbrev pub read_hex : ℕ → List ℕ → ℕ
read_hex acc [] = acc
read_hex acc (c ∷ cs) = read_hex (acc * 16 + hex_value c) cs

abbrev tens : ℕ → ℕ
tens zero = 1
tens (suc f) = 10 * tens f

dec_loop_lem :
    (f n : ℕ) (buf : List ℕ)
    → n < tens f
    → (read_dec 0 (dec_loop f n buf) ≡ read_dec n buf)
      × (length (dec_loop f n buf) ≤ f + length buf)
unfolding dec_loop
dec_loop_lem zero n buf h = let e : 0 ≡ n = omega arith in (ap (λ k. read_dec k buf) e, omega arith)
dec_loop_lem (suc f) n buf h = elim (Bool-cases (n == 0)) [
  | inl none_left ↦
      let e : 0 ≡ n = ground arith in rw none_left (ap (λ k. read_dec k buf) e, omega arith)
  | inr more ↦
      let (value, size) = dec_loop_lem f (n / 10) ((b'0' + n % 10) ∷ buf) (omega arith) in
      let digit : n / 10 * 10 + (b'0' + n % 10 - b'0') ≡ n = omega arith in
      rw more (value ∙ ap (λ k. read_dec k buf) digit, omega arith)
]

dec_bytes_lem : (n : ℕ) → n < 2 ^ 64 → (read_dec 0 (dec_bytes n) ≡ n) × (length (dec_bytes n) ≤ 20)
unfolding dec_bytes
dec_bytes_lem n h = elim (Bool-cases (n == 0)) [
  | inl none_left ↦ rw none_left (ground arith, omega arith)
  | inr more ↦ rw more (dec_loop_lem 20 n [] (omega arith))
]

hex_digit_lem : (d : ℕ) → d < 16 → hex_value (hex_digit d) ≡ d
hex_digit_lem d h = ground arith

hex_loop_lem : (k n : ℕ) → read_hex (n / 16 ^ k) (hex_loop k n) ≡ n
unfolding hex_loop
hex_loop_lem zero n = omega arith
hex_loop_lem (suc k) n =
    let q = n / 16 ^ k in
    let higher : n / 16 ^ suc k ≡ q / 16 =
      ap (λ p. n / p) (pow-suc 16 k) ∙ sym (div-div-eq-div-mul n (16 ^ k) 16) in
    let digit : n / 16 ^ suc k * 16 + hex_value (hex_digit (q % 16)) ≡ q =
      rw (higher, hex_digit_lem (q % 16) (omega arith)) (omega arith) in
    ap (λ a. read_hex a (hex_loop k n)) digit ∙ hex_loop_lem k n

length-hex_loop : (k n : ℕ) → length (hex_loop k n) ≡ k
unfolding hex_loop
length-hex_loop zero n = refl
length-hex_loop (suc k) n = ap suc (length-hex_loop k n)

-- What `uart_dec` and `uart_hex` send of a number of 64 bits reads back as the number, in base 10 and in
-- base 16. `buf` of 21 bytes is enough for the first, and the second has 16 digits.
pub dec_bytes-hex_loop :
    (n : ℕ)
    → n < 2 ^ 64
    → (read_dec 0 (dec_bytes n) ≡ n)
      × (length (dec_bytes n) ≤ 20)
      × (read_hex 0 (hex_loop 16 n) ≡ n)
      × (length (hex_loop 16 n) ≡ 16)
dec_bytes-hex_loop n h =
    let (value, size) = dec_bytes_lem n h in
    let top : 0 ≡ n / 16 ^ 16 = omega arith in
    (
      value,
      size,
      ap (λ a. read_hex a (hex_loop 16 n)) top ∙ hex_loop_lem 16 n,
      length-hex_loop 16 n,
    )
