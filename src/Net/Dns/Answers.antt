-- ===== src/Net/Dns/Answers.antt =====
-- src/net.c: the loop of dns_query over the answers, on the bytes of a reply.
use kernel_hobby.Base.{
  ℕ, ◌+◌, ◌/◌, ◌<◌, ◌≡◌, ◌&&◌, Option, none, some, List, [], ◌∷◌, ◌++◌, length, ◌==◌, if◌then◌else◌,
}
use kernel_hobby.Net.Bytes.{Ip4, put16, put32, get16, ip_at}
use kernel_hobby.Net.Checksum.{buffer}
use kernel_hobby.Net.Dns.Skip.{labels, AreLabels}

-- the name of an answer: a pointer into the message, or spelled out
pub data AnswerName : Type 0 where
  pointer : ℕ → ℕ → AnswerName
  spelled : List (List ℕ) → AnswerName

pub record Answer : Type 0 where
  pub name : AnswerName
  pub type : ℕ
  pub class : ℕ
  pub ttl : ℕ
  pub rdata : List ℕ

abbrev pub name_bytes : AnswerName → List ℕ
name_bytes (pointer hi lo) = hi ∷ lo ∷ []
name_bytes (spelled ls) = labels ls ++ 0 ∷ []

abbrev pub IsName : AnswerName → Type 0
IsName (pointer hi lo) = hi / 64 ≡ 3
IsName (spelled ls) = AreLabels ls × 0 < length (labels ls)

abbrev pub fixed_bytes : Answer → List ℕ
fixed_bytes a = put16 a.type ++ put16 a.class ++ put32 a.ttl ++ put16 (length a.rdata)

abbrev pub answer_bytes : Answer → List ℕ → List ℕ
answer_bytes a rest = name_bytes a.name ++ (fixed_bytes a ++ (a.rdata ++ rest))

abbrev pub answers_bytes : List Answer → List ℕ → List ℕ
answers_bytes [] rest = rest
answers_bytes (a ∷ more) rest = answer_bytes a (answers_bytes more rest)

abbrev pub AreAnswers : List Answer → Type 0
AreAnswers [] = Unit
AreAnswers (a ∷ more) = (IsName a.name × a.type < 65536 × length a.rdata < 65536) × AreAnswers more

-- the address that a reply gives: of the first answer of type A with four bytes
abbrev pub first_address : List Answer → Option Ip4
first_address [] = none
first_address (a ∷ more) =
    let rest = first_address more in
    if a.type == 1 && length a.rdata == 4 then some (ip_at (buffer a.rdata) 0) else rest

-- the fixed fields of an answer, from the end of its name on
record Fields (r : ℕ → ℕ) (p : ℕ) (a : Answer) : Type 0 where
  type_at : get16 r p ≡ a.type
  rdlen_at : get16 r (p + 8) ≡ length a.rdata

-- a reply: the header, the question and the answers, and what comes behind them
abbrev pub reply_header : ℕ → ℕ → ℕ → ℕ → ℕ → List ℕ
reply_header id flags an ns ar =
    put16 id ++ put16 flags ++ put16 1 ++ put16 an ++ put16 ns ++ put16 ar

abbrev pub reply_bytes : ℕ → ℕ → ℕ → ℕ → List (List ℕ) → ℕ → ℕ → List Answer → List ℕ → List ℕ
reply_bytes id flags ns ar ls qtype qclass answers rest =
    reply_header id flags (length answers) ns ar
    ++ ((labels ls ++ 0 ∷ []) ++ ((put16 qtype ++ put16 qclass) ++ answers_bytes answers rest))
