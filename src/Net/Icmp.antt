-- ===== src/Net/Icmp.antt =====
-- src/net.c: icmp_ping.
use kernel_hobby.Base.{
  ℕ, zero, suc, ◌+◌, ◌*◌, ◌%◌, Bool, true, not, ◌&&◌, ◌||◌, Option, none, some, List, [], ◌∷◌, ◌++◌,
  ltb, ◌==◌, if◌then◌else◌,
}
use kernel_hobby.Net.Bytes.{Mac, Ip4, put16, get16, ip_at, eq4}
use kernel_hobby.Net.Checksum.{cksum, buffer}
use kernel_hobby.Net.Device.{Net, Polls, eth_tx, poll_loop, eth_arp, eth_ip}
use kernel_hobby.Net.Arp.{arp_maybe_reply}
use kernel_hobby.Net.Ip.{ip_header}

-- `icmp[8 + i] = 'a' + i % 26` from `i` on, `n` of them
abbrev pub letters : ℕ → ℕ → List ℕ
letters zero i = []
letters (suc n) i = (b'a' + i % 26) ∷ letters n (i + 1)

abbrev pub echo_fields : ℕ → List ℕ
echo_fields sum = (8 ∷ 0 ∷ []) ++ put16 sum ++ put16 0xABCD ++ put16 1 ++ letters 32 0

unfoldable pub echo_request : List ℕ
echo_request = echo_fields (cksum (buffer (echo_fields 0)) 40)

-- the body of the loop: a reply from `dst` ends it
unfoldable pub icmp_body : Ip4 → (ℕ → ℕ) → ℕ → Net → Option Bool × Net
icmp_body dst fr len s =
    let icmp = 14 + fr 14 % 16 * 4 in
    if get16 fr 12 == eth_arp
    then (none, arp_maybe_reply fr len s)
    else if not (get16 fr 12 == eth_ip) || ltb len 42
    then (none, s)
    else if not (fr 23 == 1)
    then (none, s)
    else if fr icmp == 0 && eq4 (ip_at fr 26) dst
    then (some true, s)
    else (none, s)

-- `icmp_ping`: some for 0, none for -1
unfoldable pub icmp_ping : Mac → Ip4 → Polls → (ℕ → ℕ) → Net → Option Bool × Polls × Net
icmp_ping next_mac dst polls fr s =
    let (ok, t) = eth_tx next_mac eth_ip (ip_header 1 60 dst ++ echo_request) s in
    if ok then poll_loop (icmp_body dst) polls 400000000 fr t else (none, polls, t)
