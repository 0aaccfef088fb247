-- ===== src/Net/Tcp/Demo/Session.antt =====
-- src/net.c: a whole run of net_tcp_demo against a peer.
use kernel_hobby.Base.{
  ℕ, suc, ◌+◌, ◌%◌, ◌/◌, ◌^◌, ◌<◌, ◌≤◌, ◌≡◌, subst, ◌∙◌, ap, arith, true, some, List, [], ◌∷◌,
  length, ◌==◌,
}
use kernel_hobby.Net.Bytes.{Mac, my_ip}
use kernel_hobby.Net.Device.{Net, Polls}
use kernel_hobby.Net.Tcp.{Segment, Received}
use kernel_hobby.Net.Tcp.RoundTrip.{IsSegment}
use kernel_hobby.Net.Tcp.Demo.{
  Demo, Peer, done, send, data_loop, net_tcp_demo, myport, th_syn, th_ack, th_psh, th_fin,
}
use kernel_hobby.Net.Tcp.Demo.Steps.{
  send-net_ok, net_tcp_demo_lem, serve_lem, wait_syn_lem, data_loop_lem, close_lem, from_peer, peer,
}

-- The four segments of a run, the last one outermost: SYN and ACK, the payload back with its ACK, FIN, and
-- the ACK of the peer's FIN.
abbrev pub answers : Peer → ℕ → ℕ → ℕ → List ℕ → Demo → Demo
answers p syn_seq seq fin_seq payload d =
    let n = length payload in
    let next = (seq + n) % 2 ^ 32 in
    send p (20002 + n) ((fin_seq + 1) % 2 ^ 32) th_ack [] (
      send p (20001 + n) next (th_fin + th_ack) [] (
        send p 20001 next (th_psh + th_ack) payload
          (send p 20000 ((syn_seq + 1) % 2 ^ 32) (th_syn + th_ack) [] d)))

-- A peer that sends a SYN, then a payload of 1 to 1994 bytes, then a FIN, all with `tcp_send` to the port of
-- the demo, gets from `net_tcp_demo` exactly the four segments of `answers`: its payload comes back, each
-- acknowledgement is the peer's sequence number and what it sent, and the demo ends with `done`. With fuel
-- for one segment, and whatever the buffers held.
pub net_tcp_demo-answers :
    (t : Net) (to : Mac) (syn dat fin : Segment) (payload : List ℕ) (ps : Polls) (stack : ℕ → ℕ → ℕ)
    (s : Net) (fuel : ℕ)
    → t.net_ok ≡ true
    → s.net_ok ≡ true
    → IsSegment syn × IsSegment dat × IsSegment fin
    → syn.dport ≡ myport × dat.dport ≡ myport × fin.dport ≡ myport
    → (syn.flags / 2 % 2 == 1) ≡ true
    → (fin.flags % 2 == 1) ≡ true
    → 0 < length payload
    → length payload ≤ 1994
    → net_tcp_demo (suc fuel) (record {
      polls = from_peer t to syn [] ∷ from_peer t to dat payload ∷ from_peer t to fin [] ∷ ps;
      stack = stack;
      net = s;
    })
      ≡ (
        done,
        answers
            (peer t syn)
            syn.seq
            dat.seq
            fin.seq
            payload
            (record { polls = ps; stack = λ i. stack (i + 1 + 1 + 1); net = s }),
      )
unfolding send
net_tcp_demo-answers t to syn dat fin payload ps stack s fuel up up' (h1, h2, h3) (p1, p2, p3)
      is_syn is_fin some_bytes short =
    let n = length payload in
    let p = peer t syn in
    let d0 : Demo = record {
      polls = from_peer t to syn [] ∷ from_peer t to dat payload ∷ from_peer t to fin [] ∷ ps;
      stack = stack;
      net = s;
    } in
    let g : Received = record { pmac = t.my_mac; pip = my_ip; segment = syn; payload = [] } in
    let cliack = (syn.seq + 1) % 2 ^ 32 in
    let next = (dat.seq + n) % 2 ^ 32 in
    let d1 : Demo = record {
      polls = from_peer t to dat payload ∷ from_peer t to fin [] ∷ ps;
      stack = λ i. stack (i + 1);
      net = s;
    } in
    let s1 : Net = (send p 20000 cliack (th_syn + th_ack) [] d1).net in
    let d2 : Demo =
      send p 20001 next (th_psh + th_ack) payload
        (record { polls = from_peer t to fin [] ∷ ps; stack = λ i. stack (i + 1 + 1); net = s1 }) in
    let up1 : s1.net_ok ≡ true = send-net_ok p 20000 cliack (th_syn + th_ack) [] d1 ∙ up' in
    let up2 : d2.net.net_ok ≡ true =
      send-net_ok p 20001 next (th_psh + th_ack) payload
        (record { polls = from_peer t to fin [] ∷ ps; stack = λ i. stack (i + 1 + 1); net = s1 })
      ∙ up1 in
    let m : (20001 + n) % 2 ^ 32 ≡ 20001 + n = omega arith in
    let m' : (20001 + n + 1) % 2 ^ 32 ≡ 20002 + n = omega arith in
    let looped =
      data_loop_lem t to up 11 p 20001 cliack dat payload (from_peer t to fin [] ∷ ps)
        (λ i. stack (i + 1)) s1 up1 h2 p2 some_bytes short in
    let closed =
      close_lem t to up p (20001 + n) next fin ps (λ i. stack (i + 1 + 1)) d2.net up2 h3 p3
        is_fin in
    net_tcp_demo_lem (suc fuel) d0 g d1 up' (
      wait_syn_lem t to up fuel syn (from_peer t to dat payload ∷ from_peer t to fin [] ∷ ps) stack
        s up' h1 p1 is_syn)
    ∙ serve_lem g d1 (20001 + n) next d2 _
        (subst
          (λ k.
            data_loop 12 p 20001 cliack (send p 20000 cliack (th_syn + th_ack) [] d1)
            ≡ (some (k, next), d2))
          m looped)
        closed
    ∙ ap
        (λ k. (
          done,
          send p k ((fin.seq + 1) % 2 ^ 32) th_ack [] (
              send p (20001 + n) next (th_fin + th_ack) []
                (record { polls = ps; stack = λ i. stack (i + 1 + 1 + 1); net = d2.net })),
        ))
        m'
