-- ===== src/Net/Device.antt =====
-- src/net.c: what the protocols see of the card, eth_tx and eth_rx.
pub mod Laws
use kernel_hobby.Base.{
  ℕ, zero, suc, ◌-◌, Bool, true, false, not, ◌||◌, Option, none, some, List, [], ◌∷◌, ◌++◌, length,
  take, drop, replicate, ◌==◌, if◌then◌else◌,
}
use kernel_hobby.Net.Bytes.{Mac, mac_bytes, put16, overlay}

abbrev pub bufsz : ℕ
bufsz = 2048

abbrev pub nethdr : ℕ
nethdr = 12

abbrev pub eth_arp : ℕ
eth_arp = 0x0806

abbrev pub eth_ip : ℕ
eth_ip = 0x0800

-- `net_ok` and `my_mac`; the buffers given to the card so far, the last first; and whether the card uses
-- a buffer before the driver gives up.
pub record Net : Type 0 where
  pub net_ok : Bool
  pub my_mac : Mac
  pub sent : List (List ℕ)
  pub takes : Bool

-- What the receive queue holds at each poll: nothing, or the bytes that the card wrote to a buffer.
abbrev pub Polls : Type 0
Polls = List (Option (List ℕ))

abbrev pub eth_frame : Mac → Mac → ℕ → List ℕ → List ℕ
eth_frame dst src ethertype payload = mac_bytes dst ++ mac_bytes src ++ put16 ethertype ++ payload

-- `eth_tx`: true for 0, false for -1
unfoldable pub eth_tx : Mac → ℕ → List ℕ → Net → Bool × Net
eth_tx dst ethertype payload s = if not s.net_ok then (false, s) else (
  s.takes,
  record s { sent = (replicate nethdr 0 ++ eth_frame dst s.my_mac ethertype payload) ∷ s.sent },
)

-- `eth_rx`: the frame behind the header of the card, no longer than the caller's buffer; the buffer then
-- goes back to the card. A result of length 0 is no frame.
unfoldable pub eth_rx : ℕ → Option (List ℕ) → List ℕ
eth_rx max none = []
eth_rx max (some bytes) = take max (drop nethdr bytes)

-- the end of a round: the result and the state, or the rest of the loop for `continue`
abbrev pub round_end {ℓ} :
    {A : Type ℓ} → Option A × Net → Polls → Option A × Polls × Net → Option A × Polls × Net
round_end (some a, s) ps next = (some a, ps, s)
round_end (none, s) ps next = next

-- The loop that waits for a frame, which four functions of net.c share: `budget` polls at most, into the
-- buffer `fr`. The body returns a result, or none for `continue`. Once the list is at its end, no further
-- poll finds anything. The result is none for -1.
unfoldable pub poll_loop {ℓ} :
    {A : Type ℓ}
    → ((ℕ → ℕ) → ℕ → Net → Option A × Net)
    → Polls
    → ℕ
    → (ℕ → ℕ)
    → Net
    → Option A × Polls × Net
poll_loop body [] budget fr s = (none, [], s)
poll_loop body (p ∷ ps) budget fr s =
    let frame = eth_rx bufsz p in
    let fr' = overlay frame fr in
    let r = body fr' (length frame) s in
    let idle = poll_loop body ps (budget - 1) fr s in
    let next = poll_loop body ps (budget - 1) fr' r.1 in
    if budget == 0 || not s.net_ok
    then (none, p ∷ ps, s)
    else if length frame == 0
    then idle
    else round_end r ps next
