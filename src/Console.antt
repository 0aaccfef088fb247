-- ===== src/Console.antt =====
-- src/console.c: the ring of input bytes between the interrupt of the serial port and `read`. A call
-- holds `pt_lock`, so that it is one step up to a `sleep`.
pub mod Queue
mod Tests
use kernel_hobby.Base.{
  ℕ, zero, suc, ◌+◌, ◌-◌, ◌%◌, ◌^◌, Bool, true, false, not, ◌&&◌, ◌||◌, List, [], ◌∷◌, update, ltb,
  leb, ◌==◌, if◌then◌else◌,
}

abbrev pub inbuf_size : ℕ
inbuf_size = 128

abbrev pub newline : ℕ
newline = 10

-- `inbuf`, `in_w` and `in_r`
pub record Console : Type 0 where
  pub inbuf : ℕ → ℕ
  pub in_w : ℕ
  pub in_r : ℕ

-- `\r` counts as `\n`.
abbrev pub typed : ℕ → ℕ
typed c = if c == 13 then newline else c

abbrev pub is_erase : ℕ → Bool
is_erase c = c == 0x7F || c == 8

-- the guard of an erased byte
abbrev pub erases : Console → Bool
erases s =
    ltb s.in_r s.in_w && not (s.inbuf ((s.in_w + 2 ^ 64 - 1) % 2 ^ 64 % inbuf_size) == newline)

-- `in_w - in_r >= INBUF`
abbrev pub is_full : Console → Bool
is_full s = leb inbuf_size ((s.in_w + 2 ^ 64 - s.in_r) % 2 ^ 64)

-- What `console_intr` sends back, by `uart_puts("\b \b")` or `uart_putc(c)`: the bytes go out as they are.
unfoldable pub echo : ℕ → Console → List ℕ
echo key s =
    let c = typed key in
    if is_erase c
    then if erases s then 8 ∷ b' ' ∷ 8 ∷ [] else []
    else if is_full s
    then []
    else c ∷ []

-- `console_intr`, but for what it sends back, which is `echo`. The flag says whether it wakes the readers.
unfoldable pub console_intr : ℕ → Console → Bool × Console
console_intr key s =
    let c = typed key in
    if is_erase c
    then if erases s
      then (false, record s { in_w = (s.in_w + 2 ^ 64 - 1) % 2 ^ 64 })
      else (false, s)
    else if is_full s
    then (false, s)
    else (
      c == newline,
      record s { inbuf = update s.inbuf (s.in_w % inbuf_size) c; in_w = (s.in_w + 1) % 2 ^ 64 },
    )

-- What `console_read` comes to: it returns, or it sleeps with some bytes already read.
pub data Reading : Type 0 where
  returned asleep : List ℕ → Reading

abbrev pub add_byte : ℕ → Reading → Reading
add_byte c (returned bs) = returned (c ∷ bs)
add_byte c (asleep bs) = asleep (c ∷ bs)

-- The loop of `console_read`, with room for `n` more bytes: the bytes that it puts in `dst`, up to the first
-- `sleep`. A reader that wakes goes on in the same loop.
unfoldable pub console_read : ℕ → Console → Reading × Console
console_read zero s = (returned [], s)
console_read (suc n) s =
    let c = s.inbuf (s.in_r % inbuf_size) in
    let s' = record s { in_r = (s.in_r + 1) % 2 ^ 64 } in
    let rest = console_read n s' in
    if s.in_r == s.in_w
    then (asleep [], s)
    else if c == newline
    then (returned (c ∷ []), s')
    else (add_byte c rest.0, rest.1)
