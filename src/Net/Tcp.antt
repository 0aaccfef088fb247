-- ===== src/Net/Tcp.antt =====
-- src/net.c: tcp_send, tcp_recv and net_tcp_demo, a server for one connection that echoes.
pub mod RoundTrip
pub mod Demo
pub mod Bounds
use kernel_hobby.Base.{
  ℕ, ◌+◌, ◌-◌, ◌*◌, ◌/◌, ◌%◌, Bool, true, false, not, ◌||◌, Option, none, some, List, [], ◌∷◌, ◌++◌,
  length, ltb, ◌==◌, if◌then◌else◌,
}
use kernel_hobby.Net.Bytes.{Mac, Ip4, put16, put32, get16, get32, mac_at, ip_at, bytes_at}
use kernel_hobby.Net.Checksum.{fold, complement}
use kernel_hobby.Net.Device.{Net, Polls, eth_tx, poll_loop, eth_arp, eth_ip}
use kernel_hobby.Net.Arp.{arp_maybe_reply}
use kernel_hobby.Net.Ip.{ip_header, pseudo_sum}

-- the numbers of a segment
pub record Segment : Type 0 where
  pub sport : ℕ
  pub dport : ℕ
  pub seq : ℕ
  pub ack : ℕ
  pub flags : ℕ

abbrev pub tcp_fields : Segment → ℕ → List ℕ → List ℕ
tcp_fields g sum payload =
    put16 g.sport
    ++ put16 g.dport
    ++ put32 g.seq
    ++ put32 g.ack
    ++ (80 ∷ g.flags ∷ [])
    ++ put16 64240
    ++ put16 sum
    ++ put16 0
    ++ payload

unfoldable pub tcp_segment : Ip4 → Segment → List ℕ → List ℕ
tcp_segment dip g payload =
    tcp_fields g (complement (fold (pseudo_sum 6 dip (tcp_fields g 0 payload)))) payload

-- the packet that `tcp_send` builds in `pkt[BUFSZ]`
unfoldable pub tcp_packet : Ip4 → Segment → List ℕ → List ℕ
tcp_packet dip g payload = ip_header 6 (40 + length payload) dip ++ tcp_segment dip g payload

-- `tcp_send`: true for 0, false for -1
unfoldable pub tcp_send : Mac → Ip4 → Segment → List ℕ → Net → Bool × Net
tcp_send mac dip g payload s = eth_tx mac eth_ip (tcp_packet dip g payload) s

-- what `tcp_recv` fills in, and the payload
pub record Received : Type 0 where
  pub pmac : Mac
  pub pip : Ip4
  pub segment : Segment
  pub payload : List ℕ

-- `dlen`: a negative length counts as 0, and one above `max` as `max`
unfoldable pub payload_length : ℕ → ℕ → ℕ → ℕ → ℕ
payload_length max total ihl doff =
    let dlen = total - ihl - doff in if ltb max dlen then max else dlen

-- the body of the loop of `tcp_recv`
unfoldable pub tcp_body : ℕ → ℕ → (ℕ → ℕ) → ℕ → Net → Option Received × Net
tcp_body want max fr len s =
    let ihl = fr 14 % 16 * 4 in
    let t = 14 + ihl in
    let doff = fr (t + 12) / 16 * 4 in
    if get16 fr 12 == eth_arp
    then (none, arp_maybe_reply fr len s)
    else if not (get16 fr 12 == eth_ip)
    then (none, s)
    else if not (fr 14 / 16 == 4) || not (fr 23 == 6)
    then (none, s)
    else if not (get16 fr (t + 2) == want)
    then (none, s)
    else (
      some (record {
        pmac = mac_at fr 6;
        pip = ip_at fr 26;
        segment = record {
          sport = get16 fr t;
          dport = get16 fr (t + 2);
          seq = get32 fr (t + 4);
          ack = get32 fr (t + 8);
          flags = fr (t + 13);
        };
        payload = bytes_at fr (t + doff) (payload_length max (get16 fr 16) ihl doff);
      }),
      s,
    )

-- `tcp_recv`: none for -1
unfoldable pub tcp_recv : ℕ → ℕ → Polls → (ℕ → ℕ) → Net → Option Received × Polls × Net
tcp_recv want max polls fr s = poll_loop (tcp_body want max) polls 800000000 fr s
