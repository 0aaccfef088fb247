-- ===== src/Net/Udp.antt =====
-- src/net.c: udp_tx and udp_rx.
pub mod RoundTrip
use kernel_hobby.Base.{
  ℕ, ◌+◌, ◌-◌, ◌*◌, ◌/◌, ◌%◌, Bool, true, false, not, ◌||◌, Option, none, some, List, [], ◌∷◌, ◌++◌,
  length, ltb, ◌==◌, if◌then◌else◌,
}
use kernel_hobby.Net.Bytes.{Mac, Ip4, put16, get16, bytes_at}
use kernel_hobby.Net.Checksum.{fold, complement}
use kernel_hobby.Net.Device.{Net, Polls, eth_tx, poll_loop, eth_arp, eth_ip}
use kernel_hobby.Net.Arp.{arp_maybe_reply}
use kernel_hobby.Net.Ip.{ip_header, pseudo_sum}

abbrev pub udp_fields : ℕ → ℕ → ℕ → List ℕ → List ℕ
udp_fields src dst sum payload =
    put16 src ++ put16 dst ++ put16 (8 + length payload) ++ put16 sum ++ payload

-- `c ? c : 0xffff`
unfoldable pub udp_sum : Ip4 → List ℕ → ℕ
udp_sum dst segment =
    let c = complement (fold (pseudo_sum 17 dst segment)) in if c == 0 then 0xFFFF else c

unfoldable pub udp_segment : Ip4 → ℕ → ℕ → List ℕ → List ℕ
udp_segment dst_ip src dst payload =
    udp_fields src dst (udp_sum dst_ip (udp_fields src dst 0 payload)) payload

-- `udp_tx`: true for 0, false for -1
unfoldable pub udp_tx : Mac → Ip4 → ℕ → ℕ → List ℕ → Net → Bool × Net
udp_tx dst_mac dst_ip src dst payload s =
    eth_tx dst_mac eth_ip
      (ip_header 17 (28 + length payload) dst_ip ++ udp_segment dst_ip src dst payload) s

-- the body of the loop of `udp_rx`
unfoldable pub udp_body : ℕ → ℕ → (ℕ → ℕ) → ℕ → Net → Option (List ℕ) × Net
udp_body want max fr len s =
    let udp = 14 + fr 14 % 16 * 4 in
    let ulen = get16 fr (udp + 4) in
    if get16 fr 12 == eth_arp
    then (none, arp_maybe_reply fr len s)
    else if not (get16 fr 12 == eth_ip) || ltb len 42
    then (none, s)
    else if not (fr 14 / 16 == 4) || not (fr 23 == 17)
    then (none, s)
    else if not (get16 fr (udp + 2) == want)
    then (none, s)
    else if ltb ulen 8
    then (none, s)
    else (some (bytes_at fr (udp + 8) (if ltb max (ulen - 8) then max else ulen - 8)), s)

-- `udp_rx`: the payload, or none for -1
unfoldable pub udp_rx : ℕ → ℕ → Polls → (ℕ → ℕ) → Net → Option (List ℕ) × Polls × Net
udp_rx want max polls fr s = poll_loop (udp_body want max) polls 400000000 fr s
