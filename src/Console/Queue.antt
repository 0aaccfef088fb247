-- ===== src/Console/Queue.antt =====
-- src/console.c: the ring is a queue of at most 128 bytes.
use kernel_hobby.Base.{
  ℕ, zero, suc, ◌+◌, ◌-◌, ◌%◌, ◌^◌, ◌≤◌, ◌<◌, ◌≡◌, refl, sym, ◌∙◌, ap, ap₂, inl, inr, Bool, true,
  false, not, ◌&&◌, List, [], ◌∷◌, ◌++◌, arith, length, update, update_self, update_ne, ltb, leb,
  ◌==◌, if◌then◌else◌, Bool-cases, get_or, drop, length-append,
}
use kernel_hobby.Console.{
  Console, inbuf_size, newline, typed, is_erase, console_intr, console_read, Reading, returned,
  asleep, add_byte,
}

-- The `n` bytes of the ring from the position `r` on.
abbrev pub bytes_at : (ℕ → ℕ) → ℕ → ℕ → List ℕ
bytes_at buf r zero = []
bytes_at buf r (suc n) = buf (r % inbuf_size) ∷ bytes_at buf (r + 1) n

-- The ring holds the queue. The counters are far from 2 ^ 64.
pub record Queued (bs : List ℕ) (s : Console) : Type 0 where
  pub fits : length bs ≤ inbuf_size
  pub count : s.in_w ≡ s.in_r + length bs
  pub far : s.in_w < 2 ^ 63
  pub bytes : bytes_at s.inbuf s.in_r (length bs) ≡ bs

-- the last byte of a queue is not a newline, and there is one
abbrev pub can_erase : List ℕ → Bool
can_erase [] = false
can_erase (b ∷ []) = not (b == newline)
can_erase (b ∷ c ∷ bs) = can_erase (c ∷ bs)

abbrev pub drop_last : List ℕ → List ℕ
drop_last [] = []
drop_last (b ∷ []) = []
drop_last (b ∷ c ∷ bs) = b ∷ drop_last (c ∷ bs)

-- what a key does to the queue
unfoldable pub type_key : ℕ → List ℕ → List ℕ
type_key key bs =
    if is_erase (typed key)
    then (if can_erase bs then drop_last bs else bs)
    else if leb inbuf_size (length bs)
    then bs
    else bs ++ typed key ∷ []

-- what `console_read` of at most `n` bytes takes from a queue, and what it leaves
unfoldable pub read_line : ℕ → List ℕ → Reading × List ℕ
read_line zero bs = (returned [], bs)
read_line (suc n) [] = (asleep [], [])
read_line (suc n) (b ∷ bs) =
    let rest = read_line n bs in
    if b == newline then (returned (b ∷ []), bs) else (add_byte b rest.0, rest.1)

-- `console_read` on a ring that holds a queue takes what `read_line` takes: the bytes up to the first
-- newline, `n` at most, or, if there are fewer, all of them before it sleeps.
pub console_read-Queued :
    (n : ℕ) (bs : List ℕ) (s : Console)
    → Queued bs s
    → ((console_read n s).0 ≡ (read_line n bs).0) × Queued (read_line n bs).1 (console_read n s).1
unfolding console_read read_line
console_read-Queued zero bs s h = (refl, h)
console_read-Queued (suc n) [] s h =
    let empty : (s.in_r == s.in_w) ≡ true = ground (arith, h.count) in rw empty (refl, h)
console_read-Queued (suc n) (b ∷ bs) s h =
    let some_left : (s.in_r == s.in_w) ≡ false = ground (arith, h.count) in
    let first : s.inbuf (s.in_r % inbuf_size) ≡ b = ap (λ xs. get_or xs 0 0) h.bytes in
    let step : (s.in_r + 1) % 2 ^ 64 ≡ s.in_r + 1 = omega (arith, h.count, h.far) in
    let s' : Console = record s { in_r = (s.in_r + 1) % 2 ^ 64 } in
    let h' : Queued bs s' = record {
      fits = omega (arith, h.fits);
      count = omega (arith, h.count, step);
      far = h.far;
      bytes = ap (λ r. bytes_at s.inbuf r (length bs)) step ∙ ap (drop 1) h.bytes;
    } in
    let rest = console_read-Queued n bs s' h' in
    elim (Bool-cases (b == newline)) [
      | inl line ↦ rw (console_read, read_line, some_left, first, line) (refl, h')
      | inr other ↦
          rw (console_read, read_line, some_left, first, other) (ap (add_byte b) rest.0, rest.1)
    ]

last_byte :
    (buf : ℕ → ℕ) (r : ℕ) (bs : List ℕ)
    → 0 < length bs
    → bytes_at buf r (length bs) ≡ bs
    → can_erase bs ≡ not (buf ((r + length bs - 1) % inbuf_size) == newline)
last_byte buf r [] pos h = absurd (omega arith)
last_byte buf r (b ∷ []) pos h =
    let first : buf (r % inbuf_size) ≡ b = ap (λ xs. get_or xs 0 0) h in
    let e : r + 1 - 1 ≡ r = omega arith in rw (e, first) refl
last_byte buf r (b ∷ c ∷ bs) pos h =
    let e : r + 1 + length (c ∷ bs) - 1 ≡ r + length (b ∷ c ∷ bs) - 1 = omega arith in
    last_byte buf (r + 1) (c ∷ bs) (omega arith) (ap (drop 1) h)
    ∙ ap (λ w. not (buf (w % inbuf_size) == newline)) e

length-drop_last : (bs : List ℕ) → length (drop_last bs) ≡ length bs - 1
length-drop_last [] = refl
length-drop_last (b ∷ []) = refl
length-drop_last (b ∷ c ∷ bs) = omega (arith, length-drop_last (c ∷ bs))

bytes_at-drop_last :
    (buf : ℕ → ℕ) (r : ℕ) (bs : List ℕ)
    → bytes_at buf r (length bs) ≡ bs
    → bytes_at buf r (length (drop_last bs)) ≡ drop_last bs
bytes_at-drop_last buf r [] h = refl
bytes_at-drop_last buf r (b ∷ []) h = refl
bytes_at-drop_last buf r (b ∷ c ∷ bs) h =
    ap₂ (λ x xs. x ∷ xs) (ap (λ xs. get_or xs 0 0) h)
      (bytes_at-drop_last buf (r + 1) (c ∷ bs) (ap (drop 1) h))

-- A byte written behind the queue.
bytes_at-update :
    (buf : ℕ → ℕ) (r n w c : ℕ)
    → n < inbuf_size
    → (bs : List ℕ) → length bs ≡ n
    → w ≡ r + n
    → bytes_at buf r n ≡ bs
    → bytes_at (update buf (w % inbuf_size) c) r (suc n) ≡ bs ++ c ∷ []
bytes_at-update buf r zero w c lt [] len e h =
    let here : w ≡ r = omega arith in
    rw here (ap (λ x. x ∷ []) (update_self buf (r % inbuf_size) c))
bytes_at-update buf r zero w c lt (b ∷ bs) len e h = absurd (omega arith)
bytes_at-update buf r (suc n) w c lt [] len e h = absurd (omega arith)
bytes_at-update buf r (suc n) w c lt (b ∷ bs) len e h =
    ap₂ (λ x xs. x ∷ xs)
      (update_ne buf (w % inbuf_size) (r % inbuf_size) c (omega arith) ∙ ap (λ xs. get_or xs 0 0) h)
      (bytes_at-update buf (r + 1) n w c (omega arith) bs (omega arith) (omega arith)
        (ap (drop 1) h))

grown : (bs : List ℕ) (c : ℕ) → length (bs ++ c ∷ []) ≡ suc (length bs)
grown bs c = omega (arith, length-append bs (c ∷ []))

erase_test :
    (bs : List ℕ) (s : Console)
    → Queued bs s
    → (ltb s.in_r s.in_w && not (s.inbuf ((s.in_w + 2 ^ 64 - 1) % 2 ^ 64 % inbuf_size) == newline))
      ≡ can_erase bs
erase_test [] s h = let empty : ltb s.in_r s.in_w ≡ false = ground (arith, h.count) in rw empty refl
erase_test (b ∷ bs) s h =
    let some_left : ltb s.in_r s.in_w ≡ true = ground (arith, h.count) in
    let place : (s.in_w + 2 ^ 64 - 1) % 2 ^ 64 ≡ s.in_r + length (b ∷ bs) - 1 =
      omega (arith, h.count, h.far) in
    rw (some_left, place) (sym (last_byte s.inbuf s.in_r (b ∷ bs) (omega arith) h.bytes))

can_erase_pos : (bs : List ℕ) → can_erase bs ≡ true → 0 < length bs
can_erase_pos [] h = absurd (ground (arith, h))
can_erase_pos (b ∷ bs) h = omega arith

-- A key on a ring that holds a queue, whose counters are far from 2 ^ 64, does to the queue what `type_key`
-- does: a full queue and the erase of nothing or of a newline change nothing.
pub console_intr-Queued :
    (key : ℕ) (bs : List ℕ) (s : Console)
    → Queued bs s
    → s.in_w + 1 < 2 ^ 63
    → Queued (type_key key bs) (console_intr key s).1
unfolding console_intr type_key
console_intr-Queued key bs s h far = elim (Bool-cases (is_erase (typed key))) [
  | inl erase ↦ elim (Bool-cases (can_erase bs)) [
    | inr cannot ↦ rw (console_intr, erase, erase_test bs s h, cannot) h
    | inl can ↦
        let some_left = can_erase_pos bs can in
        rw (console_intr, erase, erase_test bs s h, can)
          (record {
            fits = omega (arith, h.fits, length-drop_last bs);
            count = omega (arith, h.count, h.far, some_left, length-drop_last bs);
            far = omega (arith, h.far, h.count, some_left);
            bytes = bytes_at-drop_last s.inbuf s.in_r bs h.bytes;
          })
  ]
  | inr char ↦ elim (Bool-cases (leb inbuf_size (length bs))) [
    | inl full ↦
        let test : leb inbuf_size ((s.in_w + 2 ^ 64 - s.in_r) % 2 ^ 64) ≡ true =
          ground (arith, full, h.count, h.far, h.fits) in
        rw (console_intr, char, full, test) h
    | inr room ↦
        let test : leb inbuf_size ((s.in_w + 2 ^ 64 - s.in_r) % 2 ^ 64) ≡ false =
          ground (arith, room, h.count, h.far, h.fits) in
        rw (console_intr, char, room, test)
          (record {
            fits = ground (arith, room, length-append bs (typed key ∷ []));
            count = omega (arith, h.count, far, length-append bs (typed key ∷ []));
            far = omega (arith, far);
            bytes =
                ap (bytes_at (update s.inbuf (s.in_w % inbuf_size) (typed key)) s.in_r)
                  (grown bs (typed key))
                ∙ bytes_at-update s.inbuf s.in_r (length bs) s.in_w (typed key)
                    (ground (arith, room)) bs refl h.count h.bytes;
          })
  ]
]
