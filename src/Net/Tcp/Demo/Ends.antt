-- ===== src/Net/Tcp/Demo/Ends.antt =====
-- src/net.c: the loop of net_tcp_demo that waits for a SYN ends.
use kernel_hobby.Base.{
  ℕ, zero, suc, ◌-◌, ◌<◌, ◌≡◌, ◌≢◌, ◌⊎◌, inl, refl, arith, Option, none, [], ◌∷◌, length,
}
use kernel_hobby.Net.Bytes.{overlay}
use kernel_hobby.Net.Device.{Net, Polls, bufsz, eth_rx, poll_loop}
use kernel_hobby.Net.Tcp.{Received, tcp_body, tcp_recv}
use kernel_hobby.Net.Tcp.Demo.{Demo, out_of_fuel, receive, wait_syn, serve, net_tcp_demo, myport}

-- A loop that returns a result has used up a poll.
poll_loop-shorter {ℓ} :
    {A : Type ℓ} (body : (ℕ → ℕ) → ℕ → Net → Option A × Net) (ps : Polls) (budget : ℕ) (fr : ℕ → ℕ)
    (s : Net)
    → ((poll_loop body ps budget fr s).0 ≡ none)
      ⊎ (length (poll_loop body ps budget fr s).1 < length ps)
unfolding poll_loop
poll_loop-shorter body [] budget fr s = inl refl
poll_loop-shorter body (p ∷ ps) budget fr s =
    let frame = eth_rx bufsz p in
    let fr' = overlay frame fr in
    let r = body fr' (length frame) s in
    let idle = poll_loop-shorter body ps (budget - 1) fr s in
    let next = poll_loop-shorter body ps (budget - 1) fr' r.1 in ground arith

receive-shorter :
    (d : Demo) → ((receive d).0 ≡ none) ⊎ (length (receive d).1.polls < length d.polls)
unfolding receive tcp_recv
receive-shorter d = poll_loop-shorter (tcp_body myport bufsz) d.polls 800000000 (d.stack 0) d.net

wait_syn-ends : (fuel : ℕ) (d : Demo) → length d.polls < fuel → (wait_syn fuel d).0 ≢ none
unfolding wait_syn
wait_syn-ends zero d h = absurd (omega arith)
wait_syn-ends (suc n) d h =
    let rest = wait_syn-ends n (receive d).1 in let shorter = receive-shorter d in ground arith

serve-ends : (g : Received) (d : Demo) → (serve g d).0 ≢ out_of_fuel
unfolding serve
serve-ends g d = ground arith

-- `net_tcp_demo` ends, with fuel for each poll and one more.
pub net_tcp_demo-ends :
    (fuel : ℕ) (d : Demo) → length d.polls < fuel → (net_tcp_demo fuel d).0 ≢ out_of_fuel
unfolding net_tcp_demo
net_tcp_demo-ends fuel d h =
    let found = wait_syn-ends fuel d h in
    let served = λ (g : Received). serve-ends g (wait_syn fuel d).1 in grind arith
