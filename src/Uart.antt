-- ===== src/Uart.antt =====
-- src/uart.c: the bytes that go out of the serial port, and those that come in. A message goes out under
-- `uart_lock`, so that its bytes are in one piece.
pub mod Digits
pub mod Port
mod Tests
use kernel_hobby.Base.{
  ℕ, zero, suc, ◌+◌, ◌-◌, ◌/◌, ◌%◌, ◌^◌, Bool, true, false, ◌||◌, List, [], ◌∷◌, ◌++◌, ltb, ◌==◌,
  if◌then◌else◌,
}
use kernel_hobby.Console.{Console, console_intr}

-- `uart_putc` on what went out so far
abbrev pub uart_putc : ℕ → List ℕ → List ℕ
uart_putc c out = out ++ (c ∷ [])

-- the loop of `uart_puts`: a carriage return goes before each newline
abbrev pub puts_bytes : List ℕ → List ℕ
puts_bytes [] = []
puts_bytes (c ∷ cs) = let rest = puts_bytes cs in if c == b'\n' then b'\r' ∷ c ∷ rest else c ∷ rest

abbrev pub uart_puts : List ℕ → List ℕ → List ℕ
uart_puts s out = out ++ puts_bytes s

-- `while (n > 0)` of `uart_dec`: `buf` with the last digit first, as the second loop sends it
unfoldable pub dec_loop : ℕ → ℕ → List ℕ → List ℕ
dec_loop zero n buf = buf
dec_loop (suc f) n buf =
    let rest = dec_loop f (n / 10) ((b'0' + n % 10) ∷ buf) in if n == 0 then buf else rest

unfoldable pub dec_bytes : ℕ → List ℕ
dec_bytes n = if n == 0 then b'0' ∷ [] else dec_loop 20 n []

abbrev pub uart_dec : ℕ → List ℕ → List ℕ
uart_dec n out = out ++ dec_bytes n

abbrev pub hex_digit : ℕ → ℕ
hex_digit d = if ltb d 10 then b'0' + d else b'a' + d - 10

-- `for (shift = 60; shift >= 0; shift -= 4)` with `k` rounds left
unfoldable pub hex_loop : ℕ → ℕ → List ℕ
hex_loop zero n = []
hex_loop (suc k) n = hex_digit (n / 16 ^ k % 16) ∷ hex_loop k n

abbrev pub uart_hex : ℕ → List ℕ → List ℕ
uart_hex n out = out ++ (b'0' ∷ b'x' ∷ hex_loop 16 n)

-- `uart_intr`, with the bytes that the port holds. The flag says whether it wakes the readers.
unfoldable pub uart_intr : List ℕ → Console → Bool × Console
uart_intr [] s = (false, s)
uart_intr (c ∷ cs) s =
    let (woke, s') = console_intr c s in let (later, t) = uart_intr cs s' in (woke || later, t)
