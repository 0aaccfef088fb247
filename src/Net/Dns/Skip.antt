-- ===== src/Net/Dns/Skip.antt =====
-- src/net.c: the loop of dns_query that steps over a name, and the bytes that a buffer carries.
use kernel_hobby.Base.{
  ℕ, zero, suc, ◌+◌, ◌<◌, ◌≤◌, ◌≡◌, ◌≢◌, sym, ◌∙◌, ap, arith, true, not, ◌&&◌, none, some, List, [],
  ◌∷◌, ◌++◌, length, length-append, append_assoc, subst, ltb, ◌==◌,
}
use kernel_hobby.Net.Bytes.{overlay}
use kernel_hobby.Net.Device.Laws.{overlay_at}
use kernel_hobby.Base.Segments.{Carries, Carries-right}
use kernel_hobby.Net.Dns.{counted, skip_labels}

pub Carries-overlay : (bs : List ℕ) (f : ℕ → ℕ) → Carries 0 (overlay bs f) 0 bs
Carries-overlay bs f i lt =
    let e : 0 + i ≡ i = omega arith in ap (overlay bs f) e ∙ overlay_at bs f i lt

-- The loop has fuel enough when there is some for each byte that is left.
pub skip_labels-ends :
    (n : ℕ) (r : ℕ → ℕ) (rlen off : ℕ) → rlen ≤ off + n → skip_labels n r rlen off ≢ none
unfolding skip_labels
skip_labels-ends zero r rlen off h = ground arith
skip_labels-ends (suc n) r rlen off h =
    let rest = skip_labels-ends n r rlen (off + r off + 1) in ground arith

-- the labels of a name, one after another
abbrev pub labels : List (List ℕ) → List ℕ
labels [] = []
labels (l ∷ ls) = counted l ++ labels ls

-- labels that a name can have
abbrev pub AreLabels : List (List ℕ) → Type 0
AreLabels [] = Unit
AreLabels (l ∷ ls) = (0 < length l × length l < 64) × AreLabels ls

skip_labels-stop :
    (n : ℕ) (r : ℕ → ℕ) (rlen off : ℕ) → r off ≡ 0 → skip_labels n r rlen off ≡ some off
unfolding skip_labels
skip_labels-stop zero r rlen off h = ground arith
skip_labels-stop (suc n) r rlen off h = ground arith

-- The loop steps over labels, up to the 0 behind them.
pub skip_labels_lem :
    (n : ℕ) (r : ℕ → ℕ) (rlen off : ℕ) (ls : List (List ℕ))
    → AreLabels ls
    → Carries 0 r off (labels ls ++ 0 ∷ [])
    → off + length (labels ls) < rlen
    → rlen ≤ off + n
    → skip_labels n r rlen off ≡ some (off + length (labels ls))
unfolding skip_labels
skip_labels_lem n r rlen off [] ok h fits fuel =
    let at_off : off + 0 ≡ off = omega arith in
    let nul : r off ≡ 0 = ap r (sym at_off) ∙ h 0 (omega arith) in
    skip_labels-stop n r rlen off nul ∙ ap some (sym at_off)
skip_labels_lem zero r rlen off (l ∷ ls) ok h fits fuel = absurd (omega arith)
skip_labels_lem (suc n) r rlen off (l ∷ ls) ((pos, short), ok) h fits fuel =
    let at_off : off + 0 ≡ off = omega arith in
    let count : r off ≡ length l = ap r (sym at_off) ∙ h 0 (omega arith) ∙ omega arith in
    let whole = subst (Carries 0 r off) (append_assoc (counted l) (labels ls) (0 ∷ [])) h in
    let place : off + suc (length l) ≡ off + length l + 1 = omega arith in
    let later : Carries 0 r (off + length l + 1) (labels ls ++ 0 ∷ []) =
      subst (λ q. Carries 0 r q (labels ls ++ 0 ∷ [])) place
        (Carries-right 0 r off (counted l) (labels ls ++ 0 ∷ []) whole) in
    let size : length (l ++ labels ls) ≡ length l + length (labels ls) =
      length-append l (labels ls) in
    let rest =
      skip_labels_lem n r rlen (off + length l + 1) ls ok later (omega arith) (omega arith) in
    let going : (ltb off rlen && not (length l == 0)) ≡ true = ground arith in
    let end : off + length l + 1 + length (labels ls) ≡ off + suc (length (l ++ labels ls)) =
      omega arith in
    rw (skip_labels, count, going, rest) (ap some end)
