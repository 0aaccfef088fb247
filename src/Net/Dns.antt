-- ===== src/Net/Dns.antt =====
-- src/net.c: dns_query.
pub mod Name
pub mod Skip
pub mod Answers
use kernel_hobby.Base.{
  ℕ, zero, suc, ◌+◌, ◌/◌, ◌%◌, Bool, true, false, not, ◌&&◌, ◌||◌, Option, none, some, List, [],
  ◌∷◌, ◌++◌, length, ltb, ◌==◌, if◌then◌else◌,
}
use kernel_hobby.Net.Bytes.{Mac, Ip4, put16, get16, ip_at, overlay, dns_ip}
use kernel_hobby.Net.Device.{Net, Polls, bufsz}
use kernel_hobby.Net.Udp.{udp_tx, udp_rx}

-- `while (name[i] && name[i] != '.') i++;`, and the rest behind the dot
abbrev pub label_of : List ℕ → List ℕ
label_of [] = []
label_of (c ∷ cs) = let rest = label_of cs in if c == b'.' then [] else c ∷ rest

abbrev pub after_label : List ℕ → List ℕ
after_label [] = []
after_label (c ∷ cs) = let rest = after_label cs in if c == b'.' then cs else rest

-- a label with its length in front
abbrev pub counted : List ℕ → List ℕ
counted label = (length label % 256) ∷ label

abbrev pub put_label : List ℕ → Option (List ℕ) → Option (List ℕ)
put_label label none = none
put_label label (some qs) = some (counted label ++ qs)

-- The loop that writes QNAME, without its last 0. None when the fuel is out.
unfoldable pub qname : ℕ → List ℕ → Option (List ℕ)
qname n [] = some []
qname zero (c ∷ cs) = none
qname (suc n) (c ∷ cs) = put_label (label_of (c ∷ cs)) (qname n (after_label (c ∷ cs)))

abbrev pub dns_id : ℕ
dns_id = 0x1234

abbrev pub dns_port : ℕ
dns_port = 0x9999

-- the message around QNAME
abbrev pub dns_fields : List ℕ → List ℕ
dns_fields qs =
    put16 dns_id
    ++ put16 0x0100
    ++ put16 1
    ++ put16 0
    ++ put16 0
    ++ put16 0
    ++ (qs ++ ((0 ∷ []) ++ put16 1 ++ put16 1))

unfoldable pub dns_message : List ℕ → Option (List ℕ)
dns_message name = elim (qname (length name) name) [ none ↦ none | some qs ↦ some (dns_fields qs) ]

-- `while (off < rlen && r[off] != 0) off += r[off] + 1;`: none when the fuel is out
unfoldable pub skip_labels : ℕ → (ℕ → ℕ) → ℕ → ℕ → Option ℕ
skip_labels zero r rlen off = if ltb off rlen && not (r off == 0) then none else some off
skip_labels (suc n) r rlen off =
    let rest = skip_labels n r rlen (off + r off + 1) in
    if ltb off rlen && not (r off == 0) then rest else some off

-- the name of an answer: two bytes of a pointer, or labels
unfoldable pub skip_name : (ℕ → ℕ) → ℕ → ℕ → Option ℕ
skip_name r rlen off =
    let labels = skip_labels rlen r rlen off in
    if r off / 64 % 4 == 3
    then some (off + 2)
    else elim labels [ none ↦ none | some end ↦ some (end + 1) ]

-- the answers, `n` of them left: `some none` for -1
unfoldable pub answer_loop : ℕ → (ℕ → ℕ) → ℕ → ℕ → Option (Option Ip4)
answer_loop zero r rlen off = some none
answer_loop (suc n) r rlen off =
    let field = skip_name r rlen off in
    elim field [
      | none ↦ if ltb rlen (off + 12) then some none else none
      | some p ↦
          let rest = answer_loop n r rlen (p + 10 + get16 r (p + 8)) in
          if ltb rlen (off + 12)
          then some none
          else if ltb rlen (p + 10)
          then some none
          else if get16 r p == 1 && get16 r (p + 8) == 4
          then some (some (ip_at r (p + 10)))
          else rest
    ]

-- the answer in a message of `rlen` bytes
unfoldable pub dns_answer : (ℕ → ℕ) → ℕ → Option (Option Ip4)
dns_answer r rlen =
    let question = skip_labels rlen r rlen 12 in
    if ltb rlen 12
    then some none
    else if ltb (get16 r 6) 1
    then some none
    else elim question [ none ↦ none | some off ↦ answer_loop (get16 r 6) r rlen (off + 5) ]

-- `dns_query`: the address, or `some none` for -1. `fr` and `r` are the two buffers on the stack.
unfoldable pub dns_query :
    Mac → List ℕ → Polls → (ℕ → ℕ) → (ℕ → ℕ) → Net → Option (Option Ip4) × Polls × Net
dns_query dns_mac name polls fr r s = elim (dns_message name) [
  | none ↦ (none, polls, s)
  | some q ↦
      let (sent, t) = udp_tx dns_mac dns_ip dns_port 53 q s in
      let (got, ps, u) = udp_rx dns_port bufsz polls fr t in
      let result : Option (Option Ip4) = elim got [
        | none ↦ some none
        | some payload ↦ dns_answer (overlay payload r) (length payload)
      ] in
      if sent then (result, ps, u) else (some none, polls, t)
]
