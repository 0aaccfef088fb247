-- ===== src/Net/Tests.antt =====
-- Runs of the protocols, and their theorems at concrete inputs.
use kernel_hobby.Base.{
  ℕ, ◌^◌, ◌<◌, ◌≡◌, ◌≢◌, refl, arith, true, some, List, [], ◌∷◌, ◌++◌, length, replicate,
}
use kernel_hobby.Net.Bytes.{my_ip, dns_ip, overlay}
use kernel_hobby.Net.Device.{Net, bufsz}
use kernel_hobby.Net.Device.Laws.{last_sent}
use kernel_hobby.Net.Arp.{arp_request, arp_maybe_reply, arp_resolve}
use kernel_hobby.Net.Arp.Exchange.{question, arp_resolve-arp_maybe_reply}
use kernel_hobby.Net.Udp.{udp_tx, udp_rx}
use kernel_hobby.Net.Udp.RoundTrip.{udp_tx-udp_rx}
use kernel_hobby.Net.Tcp.{Segment, tcp_send, tcp_recv, tcp_body}
use kernel_hobby.Net.Tcp.RoundTrip.{IsSegment, tcp_send-tcp_recv}
use kernel_hobby.Net.Tcp.Bounds.{Overflows, tcp_body-Overflows}
use kernel_hobby.Net.Tcp.Demo.{Demo, done, out_of_fuel, net_tcp_demo}
use kernel_hobby.Net.Tcp.Demo.Steps.{from_peer, peer}
use kernel_hobby.Net.Tcp.Demo.Session.{answers, net_tcp_demo-answers}
use kernel_hobby.Net.Tcp.Demo.Ends.{net_tcp_demo-ends}
use kernel_hobby.Net.Dns.{dns_message}
use kernel_hobby.Net.Dns.Name.{Fits, dns_message-Fits}
use kernel_hobby.Net.Dns.Answers.{Answer, pointer, spelled}

-- two hosts, and a buffer that nothing was written to
abbrev host : Net
host = record {
  net_ok = true;
  my_mac = record { m0 = 2; m1 = 0; m2 = 0; m3 = 0; m4 = 0; m5 = 1 };
  sent = [];
  takes = true;
}

abbrev other : Net
other = record host { my_mac = record { m0 = 2; m1 = 0; m2 = 0; m3 = 0; m4 = 0; m5 = 9 } }

abbrev junk : ℕ → ℕ
junk i = 0xAA

arp_resolve-arp_maybe_reply_example :
    arp_resolve my_ip
      (last_sent (arp_maybe_reply (overlay (question host) junk) (length (question host)) other)
        ∷ [])
      junk
      host
    ≡ (some other.my_mac, [], arp_request my_ip host)
arp_resolve-arp_maybe_reply_example = arp_resolve-arp_maybe_reply host other junk junk [] refl refl

udp_tx-udp_rx_example :
    udp_rx 53 512
      (last_sent (udp_tx other.my_mac dns_ip 1000 53 (1 ∷ 2 ∷ 3 ∷ []) host).1 ∷ [])
      junk
      other
    ≡ (some (1 ∷ 2 ∷ 3 ∷ []), [], other)
udp_tx-udp_rx_example =
    udp_tx-udp_rx other.my_mac dns_ip 1000 53 512 (1 ∷ 2 ∷ 3 ∷ []) [] junk other host refl refl
      (omega arith) (omega arith) (omega arith)

abbrev segment_of : ℕ → ℕ → Segment
segment_of seq flags = record { sport = 40000; dport = 5599; seq = seq; ack = 20001; flags = flags }

segment_of-IsSegment : (seq flags : ℕ) → seq < 2 ^ 32 → IsSegment (segment_of seq flags)
segment_of-IsSegment seq flags h = record {
  sport_fits = omega arith;
  dport_fits = omega arith;
  seq_fits = h;
  ack_fits = omega arith;
}

tcp_send-tcp_recv_example :
    tcp_recv 5599 2048
      (last_sent (tcp_send other.my_mac my_ip (segment_of 7 24) (b'h' ∷ b'i' ∷ []) host).1 ∷ [])
      junk
      other
    ≡ (
      some (record {
        pmac = host.my_mac;
        pip = my_ip;
        segment = segment_of 7 24;
        payload = b'h' ∷ b'i' ∷ [];
      }),
      [],
      other,
    )
tcp_send-tcp_recv_example =
    tcp_send-tcp_recv other.my_mac my_ip 2048 (segment_of 7 24) (b'h' ∷ b'i' ∷ []) [] junk other
      host refl refl (segment_of-IsSegment 7 24 (omega arith)) (omega arith) (omega arith)

-- a session of a peer that sends "hi"
abbrev session : Demo
session = record {
  polls =
      from_peer other host.my_mac (segment_of 100 2) []
      ∷ from_peer other host.my_mac (segment_of 101 24) (b'h' ∷ b'i' ∷ [])
      ∷ from_peer other host.my_mac (segment_of 103 17) []
      ∷ [];
  stack = λ n. junk;
  net = host;
}

net_tcp_demo-answers_example : net_tcp_demo 4 session ≡ (
  done,
  answers
      (peer other (segment_of 100 2))
      100
      101
      103
      (b'h' ∷ b'i' ∷ [])
      (record { polls = []; stack = λ n. junk; net = host }),
)
net_tcp_demo-answers_example =
    net_tcp_demo-answers other host.my_mac (segment_of 100 2) (segment_of 101 24)
      (segment_of 103 17) (b'h' ∷ b'i' ∷ []) [] (λ n. junk) host 3 refl refl
      (
        segment_of-IsSegment 100 2 (omega arith),
        segment_of-IsSegment 101 24 (omega arith),
        segment_of-IsSegment 103 17 (omega arith),
      )
      (refl, refl, refl) refl refl (omega arith) (omega arith)

net_tcp_demo-ends_example : (net_tcp_demo 4 session).0 ≢ out_of_fuel
net_tcp_demo-ends_example = net_tcp_demo-ends 4 session (omega arith)

-- a frame of 60 bytes whose IP header claims 2089
abbrev long_claim : ℕ → ℕ
long_claim =
    overlay
      (replicate 12 0
        ++ (8 ∷ 0 ∷ 69 ∷ 0 ∷ 8 ∷ 41 ∷ [])
        ++ replicate 5 0
        ++ (6 ∷ [])
        ++ replicate 12 0
        ++ (21 ∷ 223 ∷ [])
        ++ replicate 8 0
        ++ (80 ∷ 24 ∷ [])
        ++ replicate 12 0)
      junk

tcp_body-Overflows_example : Overflows (tcp_body 5599 bufsz long_claim 60 host).0
unfolding overlay
tcp_body-Overflows_example =
    tcp_body-Overflows 5599 long_claim 60 host refl refl refl refl refl (omega arith)

-- a reply with an alias in front of the address
abbrev host_labels : List (List ℕ)
host_labels = (b'a' ∷ b'b' ∷ []) ∷ (b'c' ∷ []) ∷ []

abbrev two_answers : List Answer
two_answers =
    record { name = pointer 0xC0 12; type = 5; class = 1; ttl = 60; rdata = 1 ∷ b'x' ∷ 0 ∷ [] }
    ∷ record {
      name = spelled host_labels;
      type = 1;
      class = 1;
      ttl = 60;
      rdata = 93 ∷ 184 ∷ 216 ∷ 34 ∷ [];
    }
    ∷ []

dns_message-Fits_example : Fits 22 (dns_message (b'a' ∷ b'b' ∷ b'.' ∷ b'c' ∷ []))
dns_message-Fits_example = dns_message-Fits (b'a' ∷ b'b' ∷ b'.' ∷ b'c' ∷ [])
