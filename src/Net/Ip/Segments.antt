-- ===== src/Net/Ip/Segments.antt =====
-- src/net.c: the checksums of udp_tx and tcp_send, which cover a pseudo header and the segment.
use kernel_hobby.Base.{
  ℕ, ◌+◌, ◌*◌, ◌%◌, ◌^◌, ◌<◌, ◌≤◌, ◌≡◌, refl, ◌∙◌, ap, arith, List, [], ◌∷◌, length, All, inl, inr,
  Bool-cases, ◌==◌, if◌then◌else◌,
}
use kernel_hobby.Net.Bytes.{Ip4, ip_bytes}
use kernel_hobby.Net.Checksum.{fold, complement}
use kernel_hobby.Net.Ip.{pseudo_sum}
use kernel_hobby.Net.Ip.Valid.{word_sum, add_bytes_lem, fold_lem, fold-complement}
use kernel_hobby.Net.Udp.{udp_fields, udp_sum, udp_segment}
use kernel_hobby.Net.Tcp.{Segment, tcp_fields, tcp_segment}

abbrev pub AreBytes : List ℕ → Type 0
AreBytes bs = All (λ b. b < 256) bs

word_sum-le : (bs : List ℕ) → AreBytes bs → word_sum bs ≤ 65535 * length bs
unfolding word_sum
word_sum-le [] h = omega arith
word_sum-le (a ∷ []) h = omega arith
word_sum-le (a ∷ b ∷ bs) h = omega (arith, word_sum-le bs h.1.1)

-- the sum of the pseudo header
abbrev head_sum : ℕ → Ip4 → ℕ → ℕ
head_sum proto dst n =
    10 * 256 + 0 + (2 * 256 + 15) + (dst.i0 * 256 + dst.i1) + (dst.i2 * 256 + dst.i3) + (proto + n)

pseudo_sum_lem :
    (proto : ℕ) (dst : Ip4) (bs : List ℕ)
    → head_sum proto dst (length bs) + word_sum bs < 2 ^ 32
    → pseudo_sum proto dst bs ≡ head_sum proto dst (length bs) + word_sum bs
unfolding pseudo_sum
pseudo_sum_lem proto dst bs h =
    add_bytes_lem bs (head_sum proto dst (length bs) % 2 ^ 32) (omega arith) ∙ omega arith

udp_word_sum :
    (src dst c : ℕ) (payload : List ℕ)
    → c < 65536
    → word_sum (udp_fields src dst c payload) ≡ word_sum (udp_fields src dst 0 payload) + c
unfolding word_sum
udp_word_sum src dst c payload h = omega arith

udp_bound :
    (src dst : ℕ) (payload : List ℕ)
    → AreBytes payload
    → word_sum (udp_fields src dst 0 payload) ≤ 65535 * (length payload + 4)
unfolding word_sum
udp_bound src dst payload h = omega (arith, word_sum-le payload h)

-- Where the checksum would be 0, its other form is as good.
nonzero_sum :
    (sum c : ℕ)
    → 0 < sum
    → sum < 2 ^ 31
    → c ≡ (if complement (fold sum) == 0 then 0xFFFF else complement (fold sum))
    → (0 < c) × (c < 65536) × (complement (fold (sum + c)) ≡ 0)
nonzero_sum sum c pos h e =
    let f = fold_lem sum (omega arith) in
    elim (Bool-cases (complement (fold sum) == 0)) [
      | inl zero_sum ↦
          let full : c ≡ 65535 = e ∙ rw zero_sum refl in
          let ones : fold sum ≡ 65535 = ground (arith, zero_sum, f) in
          let g = fold_lem (sum + c) (omega (arith, full)) in omega (arith, full, g, ones, f)
      | inr other ↦
          let c' : c ≡ complement (fold sum) = e ∙ rw other refl in
          let some_sum : 0 < complement (fold sum) = ground (arith, other) in
          (
            omega (arith, c', some_sum),
            omega (arith, c'),
            ap (λ n. complement (fold (sum + n))) c' ∙ ap complement (fold-complement sum pos h),
          )
    ]

-- The checksum that `udp_tx` writes is not 0, and a receiver that sums the pseudo header and the segment
-- with it gets the checksum 0. The payload has bytes, at most 30000.
pub udp_segment_valid :
    (dst_ip : Ip4) (src dst : ℕ) (payload : List ℕ)
    → AreBytes (ip_bytes dst_ip)
    → AreBytes payload
    → length payload ≤ 30000
    → (0 < udp_sum dst_ip (udp_fields src dst 0 payload))
      × (complement (fold (pseudo_sum 17 dst_ip (udp_segment dst_ip src dst payload))) ≡ 0)
unfolding udp_segment udp_sum
udp_segment_valid dst_ip src dst payload ip bytes short =
    let fields = udp_fields src dst 0 payload in
    let bound = udp_bound src dst payload bytes in
    let base : pseudo_sum 17 dst_ip fields
        ≡ head_sum 17 dst_ip (8 + length payload) + word_sum fields =
      pseudo_sum_lem 17 dst_ip fields (omega (arith, bound, ip)) ∙ omega arith in
    let c = udp_sum dst_ip fields in
    let fix =
      nonzero_sum (pseudo_sum 17 dst_ip fields) c (omega (arith, base))
        (omega (arith, base, bound, ip)) refl in
    let with_c = udp_word_sum src dst c payload fix.1 in
    let total : pseudo_sum 17 dst_ip (udp_fields src dst c payload)
        ≡ pseudo_sum 17 dst_ip fields + c =
      pseudo_sum_lem 17 dst_ip (udp_fields src dst c payload)
        (omega (arith, bound, with_c, fix, ip))
      ∙ omega (arith, with_c, base) in
    (fix.0, ap (λ n. complement (fold n)) total ∙ fix.2)

tcp_word_sum :
    (g : Segment) (c : ℕ) (payload : List ℕ)
    → c < 65536
    → word_sum (tcp_fields g c payload) ≡ word_sum (tcp_fields g 0 payload) + c
unfolding word_sum
tcp_word_sum g c payload h = omega arith

tcp_bound :
    (g : Segment) (payload : List ℕ)
    → AreBytes payload
    → g.flags < 256
    → word_sum (tcp_fields g 0 payload) ≤ 65535 * (length payload + 10)
unfolding word_sum
tcp_bound g payload h f = omega (arith, word_sum-le payload h)

-- A receiver that sums the pseudo header and a segment that `tcp_send` made gets the checksum 0. The payload
-- has bytes, at most 30000.
pub tcp_segment_valid :
    (dst_ip : Ip4) (g : Segment) (payload : List ℕ)
    → AreBytes (ip_bytes dst_ip)
    → AreBytes payload
    → g.flags < 256
    → length payload ≤ 30000
    → complement (fold (pseudo_sum 6 dst_ip (tcp_segment dst_ip g payload))) ≡ 0
unfolding tcp_segment
tcp_segment_valid dst_ip g payload ip bytes flags short =
    let fields = tcp_fields g 0 payload in
    let bound = tcp_bound g payload bytes flags in
    let base : pseudo_sum 6 dst_ip fields
        ≡ head_sum 6 dst_ip (20 + length payload) + word_sum fields =
      pseudo_sum_lem 6 dst_ip fields (omega (arith, bound, ip)) ∙ omega arith in
    let c = complement (fold (pseudo_sum 6 dst_ip fields)) in
    let with_c = tcp_word_sum g c payload (omega arith) in
    let total : pseudo_sum 6 dst_ip (tcp_fields g c payload) ≡ pseudo_sum 6 dst_ip fields + c =
      pseudo_sum_lem 6 dst_ip (tcp_fields g c payload) (omega (arith, bound, with_c, ip))
      ∙ omega (arith, with_c, base) in
    ap (λ n. complement (fold n)) total
    ∙ ap complement (
        fold-complement (pseudo_sum 6 dst_ip fields) (omega (arith, base))
          (omega (arith, base, bound, ip)))
