-- ===== src/Net/Device/Laws.antt =====
-- src/net.c: a loop that waits for a frame, when the frame is there.
use kernel_hobby.Base.{
  ℕ, zero, suc, ◌+◌, ◌<◌, ◌≤◌, ◌≡◌, refl, ◌∙◌, ap, arith, Bool, true, false, Option, none, some,
  List, [], ◌∷◌, ◌++◌, length, drop, replicate, get_or, sym, length-drop, take_all, ltb, ◌==◌, ◌-◌,
  ◌||◌, not, if◌then◌else◌,
}
use kernel_hobby.Net.Bytes.{Mac, overlay, bytes_at}
use kernel_hobby.Net.Device.{
  eth_tx, eth_frame, Net, Polls, eth_rx, poll_loop, round_end, bufsz, nethdr,
}

-- what the card hands over of a frame that was sent
abbrev pub delivered : List ℕ → Option (List ℕ)
delivered frame = some (replicate nethdr 0 ++ frame)

-- the last buffer that the card was given, as a poll at the other end finds it
abbrev pub last_sent : Net → Option (List ℕ)
last_sent s = elim s.sent [ [] ↦ none | packet ∷ older ↦ some packet ]

pub eth_tx-delivered :
    (dst : Mac) (ethertype : ℕ) (payload : List ℕ) (s : Net)
    → s.net_ok ≡ true
    → last_sent (eth_tx dst ethertype payload s).1
      ≡ delivered (eth_frame dst s.my_mac ethertype payload)
unfolding eth_tx
eth_tx-delivered dst ethertype payload s up = rw (eth_tx, up) refl

pub overlay_at : (bs : List ℕ) (f : ℕ → ℕ) (i : ℕ) → i < length bs → overlay bs f i ≡ get_or bs i 0
unfolding overlay
overlay_at bs f i h = let inside : ltb i (length bs) ≡ true = ground arith in rw inside refl

get_or_suc : (b : ℕ) (bs : List ℕ) (i : ℕ) → get_or (b ∷ bs) (i + 1) 0 ≡ get_or bs i 0
get_or_suc b bs i = let e : i + 1 ≡ suc i = omega arith in ap (λ n. get_or (b ∷ bs) n 0) e

-- The bytes of a list that is read out of a buffer from `p` on.
pub bytes_at_lem :
    (f : ℕ → ℕ) (p : ℕ) (bs : List ℕ)
    → ((i : ℕ) → i < length bs → f (p + i) ≡ get_or bs i 0)
    → bytes_at f p (length bs) ≡ bs
bytes_at_lem f p [] h = refl
bytes_at_lem f p (b ∷ bs) h =
    let at_p : p ≡ p + 0 = omega arith in
    let first : f p ≡ b = ap f at_p ∙ h 0 (omega arith) in
    let rest = bytes_at_lem f (p + 1) bs (λ i lt.
      let shift : p + 1 + i ≡ p + (i + 1) = omega arith in
      ap f shift ∙ h (i + 1) (omega arith) ∙ get_or_suc b bs i) in
    rw (first, rest) refl

get_or-drop : (n : ℕ) (bs : List ℕ) (i : ℕ) → get_or (drop n bs) i 0 ≡ get_or bs (n + i) 0
get_or-drop zero bs i = let e : i ≡ 0 + i = omega arith in ap (λ n. get_or bs n 0) e
get_or-drop (suc n) [] i = refl
get_or-drop (suc n) (b ∷ bs) i =
    let e : n + i + 1 ≡ suc n + i = omega arith in
    get_or-drop n bs i ∙ sym (get_or_suc b bs (n + i)) ∙ ap (λ m. get_or (b ∷ bs) m 0) e

-- The bytes of a frame from `n` on, read out of the buffer that holds it.
pub bytes_at-overlay :
    (n : ℕ) (bs : List ℕ) (f : ℕ → ℕ)
    → n ≤ length bs
    → bytes_at (overlay bs f) n (length (drop n bs)) ≡ drop n bs
bytes_at-overlay n bs f h = bytes_at_lem (overlay bs f) n (drop n bs) (λ i lt.
    let inside : n + i < length bs = omega (arith, length-drop n bs) in
    overlay_at bs f (n + i) inside ∙ sym (get_or-drop n bs i))

-- `poll_loop` on a frame that is there: the body sees it over the old buffer.
pub poll_loop-delivered {ℓ} :
    {A : Type ℓ} (body : (ℕ → ℕ) → ℕ → Net → Option A × Net) (frame : List ℕ) (ps : Polls)
    (budget : ℕ) (fr : ℕ → ℕ) (s t : Net) (a : A)
    → 0 < budget
    → s.net_ok ≡ true
    → 0 < length frame
    → length frame ≤ bufsz
    → body (overlay frame fr) (length frame) s ≡ (some a, t)
    → poll_loop body (delivered frame ∷ ps) budget fr s ≡ (some a, ps, t)
unfolding poll_loop eth_rx
poll_loop-delivered body frame ps budget fr s t a b up pos short h =
    let whole : eth_rx bufsz (delivered frame) ≡ frame = take_all bufsz frame short in
    let polls : ((budget == 0) || not s.net_ok) ≡ false = ground arith in
    let some_bytes : (length (eth_rx bufsz (delivered frame)) == 0) ≡ false =
      rw whole (ground arith) in
    let result : body (overlay (eth_rx bufsz (delivered frame)) fr)
          (length (eth_rx bufsz (delivered frame))) s
        ≡ (some a, t) =
      rw whole h in
    rw (poll_loop, polls, some_bytes, result) refl

if-result {ℓ κ} :
    {A : Type ℓ} (Q : A → Type κ) (b : Bool) {x y : A} → Q x → Q y → Q (if b then x else y)
if-result Q true q r = q
if-result Q false q r = r

round_end-result {ℓ κ} :
    {A : Type ℓ} (P : Option A → Type κ) (r : Option A × Net) (ps : Polls)
    (next : Option A × Polls × Net)
    → P r.0
    → P next.0
    → P (round_end r ps next).0
round_end-result P (some a, t) ps next found rest = found
round_end-result P (none, t) ps next found rest = rest

-- What holds of none and of every result of the body holds of the result of the loop.
pub poll_loop-result {ℓ κ} :
    {A : Type ℓ} (P : Option A → Type κ) (body : (ℕ → ℕ) → ℕ → Net → Option A × Net)
    → P none
    → ((f : ℕ → ℕ) (len : ℕ) (s : Net) → P (body f len s).0)
    → (ps : Polls) (budget : ℕ) (fr : ℕ → ℕ) (s : Net) → P (poll_loop body ps budget fr s).0
unfolding poll_loop
poll_loop-result P body base step [] budget fr s = base
poll_loop-result {A} P body base step (p ∷ ps) budget fr s =
    let Q = λ (q : Option A × Polls × Net). P q.0 in
    let frame = eth_rx bufsz p in
    let fr' = overlay frame fr in
    let r = body fr' (length frame) s in
    let idle = poll_loop-result P body base step ps (budget - 1) fr s in
    let next = poll_loop-result P body base step ps (budget - 1) fr' r.1 in
    let found = step fr' (length frame) s in
    if-result Q (budget == 0 || not s.net_ok) base
      (if-result Q (length frame == 0) idle (round_end-result P r ps _ found next))
