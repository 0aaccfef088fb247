-- ===== src/Net/Tcp/RoundTrip.antt =====
-- src/net.c: what tcp_send sends, tcp_recv receives.
use kernel_hobby.Base.{
  ℕ, ◌+◌, ◌-◌, ◌*◌, ◌/◌, ◌%◌, ◌^◌, ◌<◌, ◌≤◌, ◌≡◌, refl, ◌∙◌, ap, arith, true, false, some, List,
  ◌∷◌, length, get_or, ltb, ◌==◌,
}
use kernel_hobby.Net.Bytes.{Mac, Ip4, get16, get32, overlay, bytes_at, mac_at, ip_at, my_ip}
use kernel_hobby.Net.Device.{Net, Polls, eth_frame, eth_ip}
use kernel_hobby.Net.Device.Laws.{
  delivered, last_sent, eth_tx-delivered, overlay_at, bytes_at-overlay, poll_loop-delivered,
}
use kernel_hobby.Net.Ip.{ip_header}
use kernel_hobby.Net.Tcp.{
  Segment, Received, tcp_segment, tcp_packet, tcp_send, tcp_body, tcp_recv, payload_length,
}

-- the numbers of a segment that a header has room for
pub record IsSegment (g : Segment) : Type 0 where
  pub sport_fits : g.sport < 65536
  pub dport_fits : g.dport < 65536
  pub seq_fits : g.seq < 2 ^ 32
  pub ack_fits : g.ack < 2 ^ 32

-- the fields of a segment in the buffer of the receiver
record Holds (f : ℕ → ℕ) (g : Segment) : Type 0 where
  sport_at : get16 f 34 ≡ g.sport
  dport_at : get16 f 36 ≡ g.dport
  seq_at : get32 f 38 ≡ g.seq
  ack_at : get32 f 42 ≡ g.ack
  flags_at : f 47 ≡ g.flags

tcp_body_lem :
    (f : ℕ → ℕ) (max len : ℕ) (g : Segment) (payload : List ℕ) (s : Net)
    → f 12 ≡ 8
    → f 13 ≡ 0
    → f 14 ≡ 69
    → f 23 ≡ 6
    → f 46 ≡ 80
    → f 16 * 256 + f 17 ≡ 40 + length payload
    → Holds f g
    → bytes_at f 54 (length payload) ≡ payload
    → length payload ≤ max
    → tcp_body g.dport max f len s
      ≡ (some (record { pmac = mac_at f 6; pip = ip_at f 26; segment = g; payload = payload }), s)
unfolding tcp_body payload_length
tcp_body_lem f max len g payload s h12 h13 h14 h23 h46 total h bytes fits =
    let same : (g.dport == g.dport) ≡ true = ground arith in
    let dlen : 40 + length payload - 20 - 20 ≡ length payload = omega arith in
    let inside : ltb max (length payload) ≡ false = ground arith in
    rw
      (
        tcp_body, h14, h12, h13, h23, h46, h.dport_at, same, payload_length, total, dlen, inside,
        bytes, h.sport_at, h.seq_at, h.ack_at, h.flags_at,
      )
      refl

-- the four bytes of a number of 32 bits
put32-get32 :
    (v : ℕ)
    → v < 2 ^ 32
    → v / 2 ^ 24 % 256 * 2 ^ 24 + v / 2 ^ 16 % 256 * 2 ^ 16 + v / 2 ^ 8 % 256 * 2 ^ 8 + v % 256 ≡ v
put32-get32 v h = omega arith

abbrev tcp_frame : Mac → Mac → Ip4 → Segment → List ℕ → List ℕ
tcp_frame to from dip g payload = eth_frame to from eth_ip (tcp_packet dip g payload)

tcp_frame-Holds :
    (to from : Mac) (dip : Ip4) (g : Segment) (payload : List ℕ) (f : ℕ → ℕ)
    → ((i : ℕ) → i < 54 → f i ≡ get_or (tcp_frame to from dip g payload) i 0)
    → IsSegment g
    → Holds f g
unfolding tcp_packet tcp_segment ip_header
tcp_frame-Holds to from dip g payload f at h = record {
  sport_at = rw (at 34 (omega arith), at 35 (omega arith)) (omega (arith, h.sport_fits));
  dport_at = rw (at 36 (omega arith), at 37 (omega arith)) (omega (arith, h.dport_fits));
  seq_at =
      rw (at 38 (omega arith), at 39 (omega arith), at 40 (omega arith), at 41 (omega arith))
        (put32-get32 g.seq h.seq_fits);
  ack_at =
      rw (at 42 (omega arith), at 43 (omega arith), at 44 (omega arith), at 45 (omega arith))
        (put32-get32 g.ack h.ack_fits);
  flags_at = at 47 (omega arith);
}

tcp_frame-received :
    (to from : Mac) (dip : Ip4) (max : ℕ) (g : Segment) (payload : List ℕ) (ps : Polls) (fr : ℕ → ℕ)
    (s : Net)
    → s.net_ok ≡ true
    → IsSegment g
    → length payload ≤ max
    → length payload ≤ 1994
    → tcp_recv g.dport max (delivered (tcp_frame to from dip g payload) ∷ ps) fr s
      ≡ (some (record { pmac = from; pip = my_ip; segment = g; payload = payload }), ps, s)
unfolding tcp_recv tcp_packet tcp_segment ip_header
tcp_frame-received to from dip max g payload ps fr s up h fits short =
    let frame = tcp_frame to from dip g payload in
    let f = overlay frame fr in
    let at : (i : ℕ) → i < 54 → f i ≡ get_or frame i 0 =
      λ i lt. overlay_at frame fr i (omega arith) in
    let total : f 16 * 256 + f 17 ≡ 40 + length payload =
      rw (at 16 (omega arith), at 17 (omega arith)) (omega arith) in
    let body =
      tcp_body_lem f max (length frame) g payload s (at 12 (omega arith)) (at 13 (omega arith))
        (at 14 (omega arith)) (at 23 (omega arith)) (at 46 (omega arith)) total
        (tcp_frame-Holds to from dip g payload f at h) (bytes_at-overlay 54 frame fr (omega arith))
        fits in
    let r : Received = record {
      pmac = mac_at f 6;
      pip = ip_at f 26;
      segment = g;
      payload = payload;
    } in
    poll_loop-delivered (tcp_body g.dport max) frame ps 800000000 fr s s r (omega arith) up
      (omega arith) (omega arith) body
    ∙ rw
        (
          at 6 (omega arith),
          at 7 (omega arith),
          at 8 (omega arith),
          at 9 (omega arith),
          at 10 (omega arith),
          at 11 (omega arith),
          at 26 (omega arith),
          at 27 (omega arith),
          at 28 (omega arith),
          at 29 (omega arith),
        )
        refl

-- What `tcp_send` gives to the card, `tcp_recv` on the port it was sent to returns, whatever its buffer
-- held: the hardware address and the IP address of the sender, the ports, the sequence numbers, the flags
-- and the payload, when that fits in a frame and in the caller's buffer.
pub tcp_send-tcp_recv :
    (to : Mac) (dip : Ip4) (max : ℕ) (g : Segment) (payload : List ℕ) (ps : Polls) (fr : ℕ → ℕ)
    (s t : Net)
    → s.net_ok ≡ true
    → t.net_ok ≡ true
    → IsSegment g
    → length payload ≤ max
    → length payload ≤ 1994
    → tcp_recv g.dport max (last_sent (tcp_send to dip g payload t).1 ∷ ps) fr s
      ≡ (some (record { pmac = t.my_mac; pip = my_ip; segment = g; payload = payload }), ps, s)
unfolding tcp_send
tcp_send-tcp_recv to dip max g payload ps fr s t up up' h fits short =
    ap (λ p. tcp_recv g.dport max (p ∷ ps) fr s)
      (eth_tx-delivered to eth_ip (tcp_packet dip g payload) t up')
    ∙ tcp_frame-received to t.my_mac dip max g payload ps fr s up h fits short
