-- ===== src/Net/Ip.antt =====
-- src/net.c: the IP header that udp_tx, icmp_ping and tcp_send write, and the sum over a pseudo header.
pub mod Valid
pub mod Segments
use kernel_hobby.Base.{ℕ, zero, suc, ◌+◌, ◌*◌, ◌/◌, ◌%◌, ◌^◌, List, [], ◌∷◌, ◌++◌, length}
use kernel_hobby.Net.Bytes.{Ip4, put16, ip_bytes, my_ip}
use kernel_hobby.Net.Checksum.{add_bytes, fold, complement, cksum, buffer}

-- the header with a given checksum
abbrev pub ip_fields : ℕ → ℕ → Ip4 → ℕ → List ℕ
ip_fields proto total dst sum =
    (0x45 ∷ 0 ∷ [])
    ++ put16 total
    ++ put16 0
    ++ put16 0
    ++ (64 ∷ proto ∷ [])
    ++ put16 sum
    ++ ip_bytes my_ip
    ++ ip_bytes dst

-- the header, whose checksum is over the header with 0 in its place
unfoldable pub ip_header : ℕ → ℕ → Ip4 → List ℕ
ip_header proto total dst =
    ip_fields proto total dst (cksum (buffer (ip_fields proto total dst 0)) 20)

-- The sum of the addresses of `my_ip` and `dst`, the protocol and the length, and of the segment.
unfoldable pub pseudo_sum : ℕ → Ip4 → List ℕ → ℕ
pseudo_sum proto dst segment = add_bytes (buffer segment) 0 (length segment) (
    (10 * 256
      + 0
      + (2 * 256 + 15)
      + (dst.i0 * 256 + dst.i1)
      + (dst.i2 * 256 + dst.i3)
      + (proto + length segment))
    % 2 ^ 32)
