-- ===== src/Net/Demo.antt =====
-- src/net.c: net_demo, which finds the gateway, pings it and asks the name server for an address.
use kernel_hobby.Base.{ℕ, Bool, not, Option, none, some, List, [], ◌∷◌, if◌then◌else◌}
use kernel_hobby.Net.Bytes.{Mac, Ip4, gw_ip, dns_ip}
use kernel_hobby.Net.Device.{Net, Polls}
use kernel_hobby.Net.Arp.{arp_resolve}
use kernel_hobby.Net.Icmp.{icmp_ping}
use kernel_hobby.Net.Dns.{dns_query}

-- "example.com"
abbrev pub demo_host : List ℕ
demo_host = b'e' ∷ b'x' ∷ b'a' ∷ b'm' ∷ b'p' ∷ b'l' ∷ b'e' ∷ b'.' ∷ b'c' ∷ b'o' ∷ b'm' ∷ []

-- what the demo reports: whether the ping came back, and the address of the host; none for an early end, and
-- for no answer
pub record Report : Type 0 where
  pub gateway : Option Mac
  pub ping : Option Bool
  pub address : Option (Option Ip4)

-- the part behind the ping
unfoldable pub resolve_host : (ℕ → ℕ → ℕ) → Polls → Net → Option (Option Ip4) × Polls × Net
resolve_host stack polls s =
    let (found, ps, t) = arp_resolve dns_ip polls (stack 2) s in
    elim found [
      | none ↦ (some none, ps, t)
      | some mac ↦ dns_query mac demo_host ps (stack 3) (stack 4) t
    ]

-- `net_demo`: `stack n` is what the stack holds under the n-th buffer.
unfoldable pub net_demo : (ℕ → ℕ → ℕ) → Polls → Net → Report × Polls × Net
net_demo stack polls s =
    let (found, ps, t) = arp_resolve gw_ip polls (stack 0) s in
    let went : Report × Polls × Net = elim found [
      | none ↦ (record { gateway = none; ping = none; address = some none }, ps, t)
      | some mac ↦
          let (ping, ps', t') = icmp_ping mac gw_ip ps (stack 1) t in
          let (address, ps'', t'') = resolve_host stack ps' t' in
          (record { gateway = some mac; ping = ping; address = address }, ps'', t'')
    ] in
    if not s.net_ok
    then (record { gateway = none; ping = none; address = some none }, polls, s)
    else went
