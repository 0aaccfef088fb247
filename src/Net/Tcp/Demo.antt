-- ===== src/Net/Tcp/Demo.antt =====
-- src/net.c: net_tcp_demo, which takes one connection, echoes what comes first and closes.
pub mod Steps
pub mod Session
pub mod Ends
use kernel_hobby.Base.{
  ℕ, zero, suc, ◌+◌, ◌-◌, ◌*◌, ◌/◌, ◌%◌, ◌^◌, Bool, true, false, not, ◌||◌, Option, none, some,
  List, [], ◌∷◌, ◌++◌, length, ◌==◌, if◌then◌else◌,
}
use kernel_hobby.Net.Bytes.{Mac, Ip4}
use kernel_hobby.Net.Device.{Net, Polls, bufsz}
use kernel_hobby.Net.Tcp.{Segment, Received, tcp_send, tcp_recv}

abbrev pub th_fin : ℕ
th_fin = 0x01

abbrev pub th_syn : ℕ
th_syn = 0x02

abbrev pub th_psh : ℕ
th_psh = 0x08

abbrev pub th_ack : ℕ
th_ack = 0x10

abbrev pub myport : ℕ
myport = 5599

-- `fl & TH_FIN` and `fl & TH_SYN`
abbrev pub has_fin : Received → Bool
has_fin r = r.segment.flags % 2 == 1

abbrev pub has_syn : Received → Bool
has_syn r = r.segment.flags / 2 % 2 == 1

-- the rest of the polls, what the stack holds under the buffer of each later call of `tcp_recv`, and the card
pub record Demo : Type 0 where
  pub polls : Polls
  pub stack : ℕ → ℕ → ℕ
  pub net : Net

-- a call of `tcp_recv` with `buf` of BUFSZ bytes
unfoldable pub receive : Demo → Option Received × Demo
receive d =
    let (r, ps, t) = tcp_recv myport bufsz d.polls (d.stack 0) d.net in
    (r, record { polls = ps; stack = λ n. d.stack (n + 1); net = t })

-- what the demo knows of its peer
pub record Peer : Type 0 where
  pub mac : Mac
  pub ip : Ip4
  pub port : ℕ

-- a call of `tcp_send` to the peer, whose result is not looked at
unfoldable pub send : Peer → ℕ → ℕ → ℕ → List ℕ → Demo → Demo
send p seq ack flags payload d = record d {
  net =
      (tcp_send p.mac p.ip
        (record { sport = myport; dport = p.port; seq = seq; ack = ack; flags = flags }) payload
        d.net).1;
}

-- `for (;;)` up to a SYN: none when the fuel is out, `some none` for a timeout
unfoldable pub wait_syn : ℕ → Demo → Option (Option Received) × Demo
wait_syn zero d = (none, d)
wait_syn (suc n) d =
    let (r, d') = receive d in
    let rest = wait_syn n d' in
    elim r [ none ↦ (some none, d') | some g ↦ if has_syn g then (some (some g), d') else rest ]

-- the loop of `tries`: the next sequence number and the next to expect, or none for "no data"
unfoldable pub data_loop : ℕ → Peer → ℕ → ℕ → Demo → Option (ℕ × ℕ) × Demo
data_loop zero p myseq cliack d = (some (myseq, cliack), d)
data_loop (suc tries) p myseq cliack d =
    let (r, d') = receive d in
    let rest = data_loop tries p myseq cliack d' in
    elim r [
      | none ↦ (none, d')
      | some g ↦
          let n = length g.payload in
          let cliack' = (g.segment.seq + n) % 2 ^ 32 in
          if not (n == 0)
          then (
            some ((myseq + n) % 2 ^ 32, cliack'),
            send p myseq cliack' (th_psh + th_ack) g.payload d',
          )
          else if has_fin g
          then (some (myseq, (g.segment.seq + 1) % 2 ^ 32), d')
          else rest
    ]

-- FIN, and the ACK of the peer's FIN
unfoldable pub close : Peer → ℕ → ℕ → Demo → Demo
close p myseq cliack d =
    let (r, d') = receive (send p myseq cliack (th_fin + th_ack) [] d) in
    elim r [
      | none ↦ d'
      | some g ↦
          if has_fin g
          then send p ((myseq + 1) % 2 ^ 32) ((g.segment.seq + 1) % 2 ^ 32) th_ack [] d'
          else d'
    ]

pub data Ending : Type 0 where
  down : Ending
  timeout : Ending
  no_data : Ending
  done : Ending
  out_of_fuel : Ending

-- the demo after the SYN
unfoldable pub serve : Received → Demo → Ending × Demo
serve g d =
    let p : Peer = record { mac = g.pmac; ip = g.pip; port = g.segment.sport } in
    let cliack = (g.segment.seq + 1) % 2 ^ 32 in
    let (r, d') = data_loop 12 p 20001 cliack (send p 20000 cliack (th_syn + th_ack) [] d) in
    elim r [ none ↦ (no_data, d') | some n ↦ (done, close p n.0 n.1 d') ]

-- `net_tcp_demo`: how it ends
unfoldable pub net_tcp_demo : ℕ → Demo → Ending × Demo
net_tcp_demo fuel d =
    let (r, d') = wait_syn fuel d in
    let served : Ending × Demo = elim r [
      | none ↦ (out_of_fuel, d')
      | some o ↦ elim o [ none ↦ (timeout, d') | some g ↦ serve g d' ]
    ] in
    if not d.net.net_ok then (down, d) else served
