-- ===== src/Net/Arp/Exchange.antt =====
-- src/net.c: a request for an address, the answer to it, and what arp_resolve makes of the answer.
use kernel_hobby.Base.{ℕ, ◌≤◌, ◌≡◌, ◌⊎◌, refl, ◌∙◌, ap, arith, true, some, List, ◌∷◌, length}
use kernel_hobby.Net.Bytes.{Mac, Ip4, get16, ip_at, eq4, my_ip, overlay}
use kernel_hobby.Net.Device.{Net, Polls, eth_tx, eth_rx, eth_frame, bufsz, eth_arp, poll_loop}
use kernel_hobby.Net.Device.Laws.{delivered, last_sent, eth_tx-delivered, poll_loop-delivered}
use kernel_hobby.Net.Arp.{
  arp_message, broadcast, no_mac, arp_request, arp_maybe_reply, arp_body, arp_resolve,
}

request_frame-answered :
    (from : Mac) (fr : ℕ → ℕ) (s : Net)
    → s.net_ok ≡ true
    → last_sent (
        arp_maybe_reply
          (overlay (eth_frame broadcast from eth_arp (arp_message 1 from my_ip no_mac my_ip)) fr)
          42
          s)
      ≡ delivered (eth_frame from s.my_mac eth_arp (arp_message 2 s.my_mac my_ip from my_ip))
unfolding arp_maybe_reply overlay
request_frame-answered from fr s up =
    eth_tx-delivered from eth_arp (arp_message 2 s.my_mac my_ip from my_ip) s up

reply_frame-resolved :
    (to from : Mac) (ps : Polls) (fr : ℕ → ℕ) (s : Net)
    → s.net_ok ≡ true
    → poll_loop
        (arp_body my_ip)
        (delivered (eth_frame to from eth_arp (arp_message 2 from my_ip to my_ip)) ∷ ps)
        400000000
        fr
        s
      ≡ (some from, ps, s)
unfolding arp_body overlay
reply_frame-resolved to from ps fr s up =
    let frame = eth_frame to from eth_arp (arp_message 2 from my_ip to my_ip) in
    poll_loop-delivered (arp_body my_ip) frame ps 400000000 fr s s from (omega arith) up
      (omega arith) (omega arith) refl

arp_request-net_ok : (target : Ip4) (s : Net) → (arp_request target s).net_ok ≡ s.net_ok
unfolding arp_request eth_tx
arp_request-net_ok target s = ground arith

-- the question as it stands in the buffer of the machine that is asked
abbrev pub question : Net → List ℕ
question s = eth_rx bufsz (last_sent (arp_request my_ip s))

-- One machine asks for the address of this host with `arp_request`, a machine that has the address answers
-- with `arp_maybe_reply`: the frame is a reply that ends the first one's `arp_resolve` with the
-- hardware address of the second, whatever the two buffers held before.
pub arp_resolve-arp_maybe_reply :
    (s t : Net) (fr fr' : ℕ → ℕ) (ps : Polls)
    → s.net_ok ≡ true
    → t.net_ok ≡ true
    → arp_resolve my_ip
        (last_sent (arp_maybe_reply (overlay (question s) fr) (length (question s)) t) ∷ ps)
        fr'
        s
      ≡ (some t.my_mac, ps, arp_request my_ip s)
unfolding arp_request arp_resolve eth_rx
arp_resolve-arp_maybe_reply s t fr fr' ps up up' =
    let asked : question s
        ≡ eth_frame broadcast s.my_mac eth_arp (arp_message 1 s.my_mac my_ip no_mac my_ip) =
      ap (eth_rx bufsz)
        (eth_tx-delivered broadcast eth_arp (arp_message 1 s.my_mac my_ip no_mac my_ip) s up) in
    ap (λ q. arp_resolve my_ip (last_sent (arp_maybe_reply (overlay q fr) (length q) t) ∷ ps) fr' s)
      asked
    ∙ ap (λ p. arp_resolve my_ip (p ∷ ps) fr' s) (request_frame-answered s.my_mac fr t up')
    ∙ reply_frame-resolved s.my_mac t.my_mac ps fr' (arp_request my_ip s)
        (arp_request-net_ok my_ip s ∙ up)

-- `arp_maybe_reply` sends nothing and changes nothing, or the frame is of 42 bytes or more and an ARP
-- request for the address of this host.
pub arp_maybe_reply-cases :
    (fr : ℕ → ℕ) (len : ℕ) (s : Net)
    → (arp_maybe_reply fr len s ≡ s)
      ⊎ (42 ≤ len × get16 fr 12 ≡ eth_arp × get16 fr 20 ≡ 1 × eq4 (ip_at fr 38) my_ip ≡ true)
unfolding arp_maybe_reply
arp_maybe_reply-cases fr len s = ground arith
