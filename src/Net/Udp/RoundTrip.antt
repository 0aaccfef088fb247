-- ===== src/Net/Udp/RoundTrip.antt =====
-- src/net.c: what udp_tx sends, udp_rx receives.
use kernel_hobby.Base.{
  ℕ, ◌+◌, ◌-◌, ◌*◌, ◌<◌, ◌≤◌, ◌≡◌, refl, ◌∙◌, ap, arith, true, false, some, List, ◌∷◌, ◌++◌, length,
  get_or, ltb, ◌==◌,
}
use kernel_hobby.Net.Bytes.{Mac, Ip4, overlay, bytes_at}
use kernel_hobby.Net.Device.{Net, Polls, eth_frame, eth_ip}
use kernel_hobby.Net.Device.Laws.{
  delivered, last_sent, eth_tx-delivered, overlay_at, bytes_at-overlay, poll_loop-delivered,
}
use kernel_hobby.Net.Ip.{ip_header}
use kernel_hobby.Net.Udp.{udp_segment, udp_body, udp_rx, udp_tx}

-- the body on a buffer with the fields of a datagram for the port
udp_body_lem :
    (f : ℕ → ℕ) (want max len : ℕ) (payload : List ℕ) (s : Net)
    → f 12 ≡ 8
    → f 13 ≡ 0
    → f 14 ≡ 69
    → f 23 ≡ 17
    → f 36 * 256 + f 37 ≡ want
    → f 38 * 256 + f 39 ≡ 8 + length payload
    → bytes_at f 42 (length payload) ≡ payload
    → 42 ≤ len
    → length payload ≤ max
    → udp_body want max f len s ≡ (some payload, s)
unfolding udp_body
udp_body_lem f want max len payload s h12 h13 h14 h23 port size bytes long fits =
    let enough : ltb len 42 ≡ false = ground arith in
    let same : (want == want) ≡ true = ground arith in
    let whole : ltb (8 + length payload) 8 ≡ false = ground arith in
    let plen : 8 + length payload - 8 ≡ length payload = omega arith in
    let inside : ltb max (length payload) ≡ false = ground arith in
    rw (udp_body, h14, h12, h13, h23, port, size, enough, same, whole, plen, inside, bytes) refl

-- the frame that `udp_tx` sends
abbrev udp_frame : Mac → Mac → Ip4 → ℕ → ℕ → List ℕ → List ℕ
udp_frame dst_mac src_mac dst_ip src dst payload =
    eth_frame dst_mac src_mac eth_ip
      (ip_header 17 (28 + length payload) dst_ip ++ udp_segment dst_ip src dst payload)

udp_frame-received :
    (dst_mac src_mac : Mac) (dst_ip : Ip4) (src dst max : ℕ) (payload : List ℕ) (ps : Polls)
    (fr : ℕ → ℕ) (s : Net)
    → s.net_ok ≡ true
    → dst < 65536
    → length payload ≤ max
    → length payload ≤ 2006
    → udp_rx dst max (delivered (udp_frame dst_mac src_mac dst_ip src dst payload) ∷ ps) fr s
      ≡ (some payload, ps, s)
unfolding udp_rx udp_segment ip_header
udp_frame-received dst_mac src_mac dst_ip src dst max payload ps fr s up port fits short =
    let frame = udp_frame dst_mac src_mac dst_ip src dst payload in
    let size : length frame ≡ 42 + length payload = omega arith in
    let at : (i : ℕ) → i < 42 → overlay frame fr i ≡ get_or frame i 0 =
      λ i lt. overlay_at frame fr i (rw size (omega arith)) in
    let port_at : overlay frame fr 36 * 256 + overlay frame fr 37 ≡ dst =
      rw (at 36 (omega arith), at 37 (omega arith)) (omega arith) in
    let ulen_at : overlay frame fr 38 * 256 + overlay frame fr 39 ≡ 8 + length payload =
      rw (at 38 (omega arith), at 39 (omega arith)) (omega arith) in
    poll_loop-delivered (udp_body dst max) frame ps 400000000 fr s s payload (omega arith) up
      (omega arith) (omega arith)
      (udp_body_lem (overlay frame fr) dst max (length frame) payload s (at 12 (omega arith))
        (at 13 (omega arith)) (at 14 (omega arith)) (at 23 (omega arith)) port_at ulen_at
        (bytes_at-overlay 42 frame fr (omega arith)) (omega arith) fits)

-- What `udp_tx` gives to the card, `udp_rx` on the port it was sent to returns, whatever its buffer held:
-- a payload that fits in a frame and in the caller's buffer.
pub udp_tx-udp_rx :
    (dst_mac : Mac) (dst_ip : Ip4) (src dst max : ℕ) (payload : List ℕ) (ps : Polls) (fr : ℕ → ℕ)
    (s t : Net)
    → s.net_ok ≡ true
    → t.net_ok ≡ true
    → dst < 65536
    → length payload ≤ max
    → length payload ≤ 2006
    → udp_rx dst max (last_sent (udp_tx dst_mac dst_ip src dst payload t).1 ∷ ps) fr s
      ≡ (some payload, ps, s)
unfolding udp_tx
udp_tx-udp_rx dst_mac dst_ip src dst max payload ps fr s t up up' port fits short =
    let sent =
      eth_tx-delivered dst_mac eth_ip
        (ip_header 17 (28 + length payload) dst_ip ++ udp_segment dst_ip src dst payload) t up' in
    ap (λ p. udp_rx dst max (p ∷ ps) fr s) sent
    ∙ udp_frame-received dst_mac t.my_mac dst_ip src dst max payload ps fr s up port fits short
