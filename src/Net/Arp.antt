-- ===== src/Net/Arp.antt =====
-- src/net.c: ARP, which asks for the hardware address of an IP address and answers for our own.
pub mod Exchange
use kernel_hobby.Base.{
  ℕ, ◌+◌, Bool, true, false, not, ◌&&◌, ◌||◌, Option, none, some, List, [], ◌∷◌, ◌++◌, length, ltb,
  leb, ◌==◌, if◌then◌else◌,
}
use kernel_hobby.Net.Bytes.{Mac, Ip4, put16, get16, mac_bytes, ip_bytes, mac_at, ip_at, eq4, my_ip}
use kernel_hobby.Net.Device.{Net, Polls, eth_tx, poll_loop, eth_arp, eth_ip}

-- the 28 bytes of a message
abbrev pub arp_message : ℕ → Mac → Ip4 → Mac → Ip4 → List ℕ
arp_message oper from from_ip to to_ip =
    put16 1
    ++ put16 eth_ip
    ++ (6 ∷ 4 ∷ [])
    ++ put16 oper
    ++ mac_bytes from
    ++ ip_bytes from_ip
    ++ mac_bytes to
    ++ ip_bytes to_ip

abbrev pub broadcast : Mac
broadcast = record { m0 = 0xFF; m1 = 0xFF; m2 = 0xFF; m3 = 0xFF; m4 = 0xFF; m5 = 0xFF }

abbrev pub no_mac : Mac
no_mac = record { m0 = 0; m1 = 0; m2 = 0; m3 = 0; m4 = 0; m5 = 0 }

unfoldable pub arp_request : Ip4 → Net → Net
arp_request target s = (eth_tx broadcast eth_arp (arp_message 1 s.my_mac my_ip no_mac target) s).1

unfoldable pub arp_maybe_reply : (ℕ → ℕ) → ℕ → Net → Net
arp_maybe_reply fr len s =
    if ltb len 42 || not (get16 fr 12 == eth_arp)
    then s
    else if not (get16 fr 20 == 1)
    then s
    else if not (eq4 (ip_at fr 38) my_ip)
    then s
    else (eth_tx (mac_at fr 22) eth_arp (arp_message 2 s.my_mac my_ip (mac_at fr 22) (ip_at fr 28))
        s).1

-- the body of the loop of `arp_resolve`
unfoldable pub arp_body : Ip4 → (ℕ → ℕ) → ℕ → Net → Option Mac × Net
arp_body target fr len s =
    if get16 fr 12 == eth_arp && leb 42 len
    then if get16 fr 20 == 2 && eq4 (ip_at fr 28) target
      then (some (mac_at fr 22), s)
      else (none, arp_maybe_reply fr len s)
    else (none, s)

-- `arp_resolve`: the address, or none for -1. `fr` is what the buffer on the stack holds at the start.
unfoldable pub arp_resolve : Ip4 → Polls → (ℕ → ℕ) → Net → Option Mac × Polls × Net
arp_resolve target polls fr s =
    poll_loop (arp_body target) polls 400000000 fr (arp_request target s)
