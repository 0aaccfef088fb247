-- ===== src/Net/Tcp/Bounds.antt =====
-- src/net.c: the length that tcp_recv takes from the IP header, and the packet that answers it.
use kernel_hobby.Base.{
  ℕ, zero, suc, ◌+◌, ◌*◌, ◌/◌, ◌%◌, ◌<◌, ◌≤◌, ◌≡◌, refl, arith, true, Option, none, some, length,
  ◌==◌,
}
use kernel_hobby.Net.Bytes.{get16, bytes_at}
use kernel_hobby.Net.Device.{Net, Polls, bufsz, eth_ip}
use kernel_hobby.Net.Device.Laws.{poll_loop-result}
use kernel_hobby.Net.Ip.{ip_header}
use kernel_hobby.Net.Tcp.{Received, payload_length, tcp_segment, tcp_packet, tcp_body, tcp_recv}

length-bytes_at : (f : ℕ → ℕ) (p n : ℕ) → length (bytes_at f p n) ≡ n
length-bytes_at f p zero = refl
length-bytes_at f p (suc n) = omega (arith, length-bytes_at f (p + 1) n)

payload_length-bounded : (max total ihl doff : ℕ) → payload_length max total ihl doff ≤ max
unfolding payload_length
payload_length-bounded max total ihl doff = ground arith

-- what a result of the body is allowed to be
abbrev Fits : ℕ → Option Received → Type 0
Fits max none = Unit
Fits max (some r) = length r.payload ≤ max

tcp_body-Fits :
    (want max : ℕ) (f : ℕ → ℕ) (len : ℕ) (s : Net) → Fits max (tcp_body want max f len s).0
unfolding tcp_body
tcp_body-Fits want max f len s =
    let ihl = f 14 % 16 * 4 in
    let doff = f (14 + ihl + 12) / 16 * 4 in
    let bounded = payload_length-bounded max (get16 f 16) ihl doff in
    let size = length-bytes_at f (14 + ihl + doff) (payload_length max (get16 f 16) ihl doff) in
    ground arith

-- what the echo of a result asks of the buffer `pkt` of `tcp_send`
abbrev pub Overflows : Option Received → Type 0
Overflows none = ⊥
Overflows (some r) = bufsz < length (tcp_packet r.pip r.segment r.payload)

-- A frame for the port, with an IP header of 20 bytes and a TCP header of 20 bytes, both without options, whose IP
-- header claims more than 2048 bytes: the body of the loop of `tcp_recv` returns a payload whose echo is longer than
-- the buffer of `tcp_send`, however short the frame is, since the length of the frame is not looked at.
pub tcp_body-Overflows :
    (want : ℕ) (f : ℕ → ℕ) (len : ℕ) (s : Net)
    → get16 f 12 ≡ eth_ip
    → f 14 ≡ 69
    → f 23 ≡ 6
    → get16 f 36 ≡ want
    → f 46 ≡ 80
    → 2048 < get16 f 16
    → Overflows (tcp_body want bufsz f len s).0
unfolding tcp_body payload_length tcp_packet tcp_segment ip_header
tcp_body-Overflows want f len s ip version proto port doff long =
    let same : (want == want) ≡ true = ground arith in
    let size = length-bytes_at f 54 (payload_length bufsz (get16 f 16) 20 20) in
    rw (tcp_body, version, proto, port, doff, ip, same) (ground arith)

-- `tcp_recv` copies no more than `max` bytes to the caller's buffer.
pub tcp_recv-Fits :
    (want max : ℕ) (ps : Polls) (fr : ℕ → ℕ) (s : Net) → Fits max (tcp_recv want max ps fr s).0
unfolding tcp_recv
tcp_recv-Fits want max ps fr s =
    poll_loop-result (Fits max) (tcp_body want max) tt (tcp_body-Fits want max) ps 800000000 fr s
