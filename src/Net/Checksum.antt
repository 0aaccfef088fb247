-- ===== src/Net/Checksum.antt =====
-- src/net.c: the checksum of sixteen bits, and the sums with a pseudo header.
use kernel_hobby.Base.{
  ℕ, zero, suc, ◌+◌, ◌-◌, ◌*◌, ◌/◌, ◌%◌, ◌^◌, List, ◌==◌, if◌then◌else◌, get_or,
}
use kernel_hobby.Net.Bytes.{get16}

-- `for (i = 0; i + 1 < len; i += 2) sum += get16(data + i);` with `n` rounds left
unfoldable pub add_words : ℕ → (ℕ → ℕ) → ℕ → ℕ → ℕ
add_words zero f p sum = sum
add_words (suc n) f p sum = add_words n f (p + 2) ((sum + get16 f p) % 2 ^ 32)

-- the loop, and the last byte of an odd length
unfoldable pub add_bytes : (ℕ → ℕ) → ℕ → ℕ → ℕ → ℕ
add_bytes f p len sum =
    let even = add_words (len / 2) f p sum in
    if len % 2 == 1 then (even + f (p + len - 1) * 256) % 2 ^ 32 else even

-- `while (sum >> 16) sum = (sum & 0xffff) + (sum >> 16);`
unfoldable pub fold_from : ℕ → ℕ → ℕ
fold_from zero sum = sum
fold_from (suc n) sum =
    let rest = fold_from n (sum % 65536 + sum / 65536) in if sum / 65536 == 0 then sum else rest

abbrev pub fold : ℕ → ℕ
fold sum = fold_from 3 sum

-- `~sum & 0xffff` of a sum below 2 ^ 32
abbrev pub complement : ℕ → ℕ
complement sum = 65535 - sum % 65536

unfoldable pub cksum : (ℕ → ℕ) → ℕ → ℕ
unfolding add_bytes
cksum f len = complement (fold (add_bytes f 0 len 0))

-- a list of bytes as a buffer
abbrev pub buffer : List ℕ → ℕ → ℕ
buffer bs i = get_or bs i 0
