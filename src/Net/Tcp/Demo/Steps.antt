-- ===== src/Net/Tcp/Demo/Steps.antt =====
-- src/net.c: the parts of a run of net_tcp_demo, each on the segment that it waits for.
use kernel_hobby.Base.{
  ℕ, suc, ◌+◌, ◌%◌, ◌/◌, ◌^◌, ◌<◌, ◌≤◌, ◌≡◌, refl, sym, ◌∙◌, arith, true, false, Option, some, List,
  [], ◌∷◌, length, ◌==◌,
}
use kernel_hobby.Net.Bytes.{Mac, Ip4, my_ip}
use kernel_hobby.Net.Device.{Net, Polls, eth_tx, bufsz}
use kernel_hobby.Net.Device.Laws.{last_sent}
use kernel_hobby.Net.Tcp.{Segment, Received, tcp_send}
use kernel_hobby.Net.Tcp.RoundTrip.{IsSegment, tcp_send-tcp_recv}
use kernel_hobby.Net.Tcp.Demo.{
  Demo, Peer, done, receive, send, wait_syn, data_loop, close, serve, net_tcp_demo, myport, th_syn,
  th_ack, th_psh, th_fin,
}

pub tcp_send-net_ok :
    (to : Mac) (dip : Ip4) (g : Segment) (payload : List ℕ) (s : Net)
    → (tcp_send to dip g payload s).1.net_ok ≡ s.net_ok
unfolding tcp_send eth_tx
tcp_send-net_ok to dip g payload s = ground arith

-- a segment that the peer sends to the port of the demo, as the card of the demo finds it
abbrev pub from_peer : Net → Mac → Segment → List ℕ → Option (List ℕ)
from_peer t to g payload = last_sent (tcp_send to my_ip g payload t).1

-- what the demo knows of the peer
abbrev pub peer : Net → Segment → Peer
peer t g = record { mac = t.my_mac; ip = my_ip; port = g.sport }

pub send-net_ok :
    (p : Peer) (seq ack flags : ℕ) (payload : List ℕ) (d : Demo)
    → (send p seq ack flags payload d).net.net_ok ≡ d.net.net_ok
unfolding send
send-net_ok p seq ack flags payload d =
    tcp_send-net_ok p.mac p.ip
      (record { sport = myport; dport = p.port; seq = seq; ack = ack; flags = flags }) payload d.net

-- a run, put together from its parts
pub net_tcp_demo_lem :
    (fuel : ℕ) (d : Demo) (g : Received) (d1 : Demo)
    → d.net.net_ok ≡ true
    → wait_syn fuel d ≡ (some (some g), d1)
    → net_tcp_demo fuel d ≡ serve g d1
unfolding net_tcp_demo
net_tcp_demo_lem fuel d g d1 up h = rw (net_tcp_demo, h, h, up) refl

pub serve_lem :
    (g : Received) (d : Demo) (myseq cliack : ℕ) (d2 d3 : Demo)
    → data_loop 12
        (record { mac = g.pmac; ip = g.pip; port = g.segment.sport })
        20001
        ((g.segment.seq + 1) % 2 ^ 32)
        (send
          (record { mac = g.pmac; ip = g.pip; port = g.segment.sport })
          20000
          ((g.segment.seq + 1) % 2 ^ 32)
          (th_syn + th_ack)
          []
          d)
      ≡ (some (myseq, cliack), d2)
    → close (record { mac = g.pmac; ip = g.pip; port = g.segment.sport }) myseq cliack d2 ≡ d3
    → serve g d ≡ (done, d3)
unfolding serve
serve_lem g d myseq cliack d2 d3 h h' = rw (serve, h, h, h') refl

module _ (t : Net) (to : Mac) (up : t.net_ok ≡ true) where
  receive_lem :
      (g : Segment) (payload : List ℕ) (ps : Polls) (stack : ℕ → ℕ → ℕ) (s : Net)
      → s.net_ok ≡ true
      → IsSegment g
      → g.dport ≡ myport
      → length payload ≤ 1994
      → receive (record { polls = from_peer t to g payload ∷ ps; stack = stack; net = s }) ≡ (
        some (record { pmac = t.my_mac; pip = my_ip; segment = g; payload = payload }),
        record { polls = ps; stack = λ n. stack (n + 1); net = s },
      )
  unfolding receive
  receive_lem g payload ps stack s up' h port short =
      rw
        (
          receive,
          sym port,
          tcp_send-tcp_recv to my_ip bufsz g payload ps (stack 0) s t up' up h (omega arith) short,
        )
        refl

  -- the parts of the run, each on the segment that it waits for
  pub wait_syn_lem :
      (n : ℕ) (g : Segment) (ps : Polls) (stack : ℕ → ℕ → ℕ) (s : Net)
      → s.net_ok ≡ true
      → IsSegment g
      → g.dport ≡ myport
      → (g.flags / 2 % 2 == 1) ≡ true
      → wait_syn (suc n) (record { polls = from_peer t to g [] ∷ ps; stack = stack; net = s }) ≡ (
        some (some (record { pmac = t.my_mac; pip = my_ip; segment = g; payload = [] })),
        record { polls = ps; stack = λ i. stack (i + 1); net = s },
      )
  unfolding wait_syn
  wait_syn_lem n g ps stack s up' h port syn =
      let got = receive_lem g [] ps stack s up' h port (omega arith) in
      rw (wait_syn, got, syn, got) refl

  pub data_loop_lem :
      (n : ℕ) (p : Peer) (myseq cliack : ℕ) (g : Segment) (payload : List ℕ) (ps : Polls)
      (stack : ℕ → ℕ → ℕ) (s : Net)
      → s.net_ok ≡ true
      → IsSegment g
      → g.dport ≡ myport
      → 0 < length payload
      → length payload ≤ 1994
      → data_loop
          (suc n)
          p
          myseq
          cliack
          (record { polls = from_peer t to g payload ∷ ps; stack = stack; net = s })
        ≡ (
          some ((myseq + length payload) % 2 ^ 32, (g.seq + length payload) % 2 ^ 32),
          send p myseq
              ((g.seq + length payload) % 2 ^ 32)
              (th_psh + th_ack)
              payload
              (record { polls = ps; stack = λ i. stack (i + 1); net = s }),
        )
  unfolding data_loop
  data_loop_lem n p myseq cliack g payload ps stack s up' h port some_bytes short =
      let nonempty : (length payload == 0) ≡ false = ground arith in
      let got = receive_lem g payload ps stack s up' h port short in
      rw (data_loop, got, nonempty, got) refl

  pub close_lem :
      (p : Peer) (myseq cliack : ℕ) (g : Segment) (ps : Polls) (stack : ℕ → ℕ → ℕ) (s : Net)
      → s.net_ok ≡ true
      → IsSegment g
      → g.dport ≡ myport
      → (g.flags % 2 == 1) ≡ true
      → close p myseq cliack (record { polls = from_peer t to g [] ∷ ps; stack = stack; net = s })
        ≡ send p ((myseq + 1) % 2 ^ 32) ((g.seq + 1) % 2 ^ 32) th_ack [] (
            send p myseq cliack
              (th_fin + th_ack)
              []
              (record { polls = ps; stack = λ i. stack (i + 1); net = s }))
  unfolding close send
  close_lem p myseq cliack g ps stack s up' h port fin =
      let s' : Net =
        (send p myseq cliack (th_fin + th_ack) []
          (record { polls = ps; stack = stack; net = s })).net in
      let got =
        receive_lem g [] ps stack s'
          (tcp_send-net_ok p.mac p.ip
              (record {
                sport = myport;
                dport = p.port;
                seq = myseq;
                ack = cliack;
                flags = th_fin + th_ack;
              })
              [] s
            ∙ up')
          h port (omega arith) in
      rw (close, got, fin, got) refl
