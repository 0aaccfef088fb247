-- ===== src/Net/Dns/Name.antt =====
-- src/net.c: the question that dns_query writes.
use kernel_hobby.Base.{
  ℕ, zero, suc, ◌+◌, ◌<◌, ◌≤◌, ◌≡◌, ◌≢◌, refl, ◌∙◌, ap, arith, false, Option, none, some, List, [],
  ◌∷◌, ◌++◌, length, length-append, ◌==◌,
}
use kernel_hobby.Net.Bytes.{put16}
use kernel_hobby.Net.Dns.{label_of, after_label, counted, put_label, qname, dns_fields, dns_message}
use kernel_hobby.Net.Dns.Skip.{labels, AreLabels}

-- the bytes that the labels of a name take at most
abbrev room : List ℕ → ℕ
room [] = 0
room (c ∷ cs) = length cs + 2

room-bounded : (cs : List ℕ) → room cs ≤ length cs + 1
room-bounded [] = omega arith
room-bounded (c ∷ cs) = omega arith

label-room : (cs : List ℕ) → length (label_of cs) + room (after_label cs) ≤ length cs
label-room [] = omega arith
label-room (c ∷ cs) = let rest = label-room cs in let short = room-bounded cs in ground arith

after_label-shorter : (c : ℕ) (cs : List ℕ) → length (after_label (c ∷ cs)) ≤ length cs
after_label-shorter c [] = ground arith
after_label-shorter c (d ∷ ds) = let rest = after_label-shorter d ds in ground arith

-- a result that is there and no longer than `n`
abbrev pub Fits : ℕ → Option (List ℕ) → Type 0
Fits n none = ⊥
Fits n (some bs) = length bs ≤ n

Fits-counted :
    (n k : ℕ) (label : List ℕ) (rest : Option (List ℕ))
    → Fits k rest
    → length label + k + 1 ≤ n
    → Fits n (put_label label rest)
Fits-counted n k label (some qs) h bound = omega (arith, length-append label qs)
Fits-counted n k label none h bound = elim h [ ]

Fits-message :
    (n k : ℕ) (rest : Option (List ℕ))
    → Fits k rest
    → k + 17 ≤ n
    → Fits n (elim rest [ none ↦ none | some qs ↦ some (dns_fields qs) ])
Fits-message n k (some qs) h bound =
    omega (arith, length-append qs ((0 ∷ []) ++ put16 1 ++ put16 1))
Fits-message n k none h bound = elim h [ ]

qname-Fits : (n : ℕ) (name : List ℕ) → length name ≤ n → Fits (room name) (qname n name)
unfolding qname
qname-Fits n [] h = omega arith
qname-Fits zero (c ∷ cs) h = absurd (omega arith)
qname-Fits (suc n) (c ∷ cs) h =
    let name = c ∷ cs in
    let shorter = after_label-shorter c cs in
    let rest = qname-Fits n (after_label name) (omega arith) in
    let bound = label-room name in
    Fits-counted (room name) (room (after_label name)) (label_of name) (qname n (after_label name))
      rest (omega arith)

-- The loop that writes the question ends for every name, and the message takes no more than 18 bytes and
-- the length of the name: a name of at most 238 characters fits in the 256 bytes of `q`.
pub dns_message-Fits : (name : List ℕ) → Fits (18 + length name) (dns_message name)
unfolding dns_message
dns_message-Fits name =
    let short = room-bounded name in
    Fits-message (18 + length name) (room name) (qname (length name) name)
      (qname-Fits (length name) name (omega arith)) (omega arith)

-- a name as it is written
abbrev pub dotted : List (List ℕ) → List ℕ
dotted [] = []
dotted (l ∷ []) = l
dotted (l ∷ m ∷ ls) = l ++ b'.' ∷ dotted (m ∷ ls)

abbrev Dotless : List ℕ → Type 0
Dotless [] = Unit
Dotless (c ∷ cs) = c ≢ b'.' × Dotless cs

-- labels of 1 to 63 characters that are no dots
abbrev pub AreDotless : List (List ℕ) → Type 0
AreDotless [] = Unit
AreDotless (l ∷ ls) = Dotless l × AreDotless ls

label_of-last : (l : List ℕ) → Dotless l → label_of l ≡ l × after_label l ≡ []
label_of-last [] ok = (refl, refl)
label_of-last (c ∷ cs) (ne, ok) =
    let (e, e') = label_of-last cs ok in
    let other : (c == b'.') ≡ false = ground arith in rw (other, e, e') (refl, refl)

label_of-dot :
    (l rest : List ℕ)
    → Dotless l
    → label_of (l ++ b'.' ∷ rest) ≡ l × after_label (l ++ b'.' ∷ rest) ≡ rest
label_of-dot [] rest ok = (refl, refl)
label_of-dot (c ∷ cs) rest (ne, ok) =
    let (e, e') = label_of-dot cs rest ok in
    let other : (c == b'.') ≡ false = ground arith in rw (other, e, e') (refl, refl)

-- one turn of the loop
qname-step :
    (n : ℕ) (name label rest qs : List ℕ)
    → 0 < length name
    → label_of name ≡ label × after_label name ≡ rest
    → qname n rest ≡ some qs
    → qname (suc n) name ≡ some (counted label ++ qs)
unfolding qname
qname-step n [] label rest qs pos (e, e') h = absurd (omega arith)
qname-step n (c ∷ cs) label rest qs pos (e, e') h =
    let name = c ∷ cs in
    ap (λ x. put_label (label_of name) (qname n x)) e'
    ∙ ap (put_label (label_of name)) h
    ∙ ap (λ x. some (counted x ++ qs)) e

qname_lem :
    (n : ℕ) (ls : List (List ℕ))
    → AreLabels ls
    → AreDotless ls
    → length (dotted ls) ≤ n
    → qname n (dotted ls) ≡ some (labels ls)
unfolding qname
qname_lem n [] ok ok' h = refl
qname_lem zero (l ∷ []) ((pos, short), ok) ok' h = absurd (omega arith)
qname_lem (suc n) (l ∷ []) ((pos, short), ok) (dotless, ok') h =
    qname-step n l l [] [] pos (label_of-last l dotless) refl
qname_lem zero (l ∷ m ∷ ls) ((pos, short), ok) ok' h =
    absurd (omega (arith, length-append l (b'.' ∷ dotted (m ∷ ls))))
qname_lem (suc n) (l ∷ m ∷ ls) ((pos, short), ok) (dotless, ok') h =
    let size = length-append l (b'.' ∷ dotted (m ∷ ls)) in
    qname-step n (dotted (l ∷ m ∷ ls)) l (dotted (m ∷ ls)) (labels (m ∷ ls)) (omega arith)
      (label_of-dot l (dotted (m ∷ ls)) dotless) (qname_lem n (m ∷ ls) ok ok' (omega arith))

-- For a name of labels of 1 to 63 characters with dots between them, the loop writes the labels, each with its length
-- in front: the message is the header, these labels, 0, and type A of class IN.
pub dns_message-dotted :
    (ls : List (List ℕ))
    → AreLabels ls
    → AreDotless ls
    → dns_message (dotted ls) ≡ some (dns_fields (labels ls))
unfolding dns_message
dns_message-dotted ls ok ok' =
    rw (dns_message, qname_lem (length (dotted ls)) ls ok ok' (omega arith)) refl
