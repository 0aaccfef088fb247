-- ===== src/Uart/Port/Drains.antt =====
-- src/uart.c: an interrupt of the serial port takes every byte that came in.
use kernel_hobby.Base.{
  ℕ, zero, suc, ◌+◌, ◌%◌, ◌^◌, ◌++◌, append_assoc, append-nil, sym, ap₂, ◌==◌, if◌then◌else◌,
  update_self, ◌<◌, ◌≡◌, refl, ◌∙◌, ap, arith, Bool, Option, none, some, List, [], ◌∷◌, length,
  ◌>>=◌,
}
use kernel_hobby.Console.{Console, typed, console_intr, echo}
use kernel_hobby.Uart.{uart_intr}
use kernel_hobby.Uart.Port.Sends.{AreBytes, put_bytes-Sent}
use kernel_hobby.Uart.Port.{Ns16550, IsSerial, uart_lsr, uart_getc, drain}

-- What an echo shows of a change of the ring: nothing if it stayed, the byte that was added, or "\b \b" for a byte
-- that was taken back.
abbrev pub shown : Console → Console → List ℕ
shown s s' =
    if s'.in_w == s.in_w
    then []
    else if s'.in_w == (s.in_w + 1) % 2 ^ 64
    then s'.inbuf (s.in_w % 128) ∷ []
    else 8 ∷ b' ' ∷ 8 ∷ []

-- what these keys show, one after another
abbrev pub all_shown : List ℕ → Console → List ℕ
all_shown [] s = []
all_shown (c ∷ cs) s = shown s (console_intr c s).1 ++ all_shown cs (console_intr c s).1

echo-shown : (c : ℕ) (s : Console) → s.in_w < 2 ^ 64 → echo c s ≡ shown s (console_intr c s).1
unfolding echo console_intr
echo-shown c s h = ground (arith, update_self s.inbuf (s.in_w % 128) (typed c))

echo-AreBytes : (c : ℕ) (s : Console) → c < 256 → AreBytes (echo c s)
unfolding echo
echo-AreBytes c s h = ground arith

console_intr-lt : (c : ℕ) (s : Console) → s.in_w < 2 ^ 64 → (console_intr c s).1.in_w < 2 ^ 64
unfolding console_intr
console_intr-lt c s h = ground arith

module _ {D : Type 0} (uart : Ns16550 D) (sent came : D → List ℕ) (busy : D → ℕ) (limit : ℕ)
    (port : IsSerial uart sent came busy limit) where
  uart_getc-nothing :
      (d : D)
      → came d ≡ []
      → let (got, d') = uart_getc uart d in (got ≡ none) × (came d' ≡ []) × (sent d' ≡ sent d)
  unfolding uart_getc
  uart_getc-nothing d e = rw (port.nothing d e) (refl, port.status_came d ∙ e, port.status_sent d)

  uart_getc-first :
      (c : ℕ) (cs : List ℕ) (d : D)
      → came d ≡ c ∷ cs
      → let (got, d') = uart_getc uart d in (got ≡ some c) × (came d' ≡ cs) × (sent d' ≡ sent d)
  unfolding uart_getc
  uart_getc-first c cs d e =
      let d1 = (uart.load d uart_lsr).1 in
      let (first, rest) = port.taken d1 c cs (port.status_came d ∙ e) in
      rw (port.ready d c cs e) (ap some first, rest, port.taken_sent d1 ∙ port.status_sent d)

  -- What the interrupt made of the port and the console, over the bytes that came in.
  abbrev pub Drained : List ℕ → Console → D → Option (Bool × Console × D) → Type 0
  Drained cs s d r =
      (d' : D) × (r ≡ some ((uart_intr cs s).0, (uart_intr cs s).1, d'))
      × (came d' ≡ [])
      × (sent d' ≡ sent d ++ all_shown cs s)

  -- The loop of uart_intr comes to its end with one call of uart_getc more than bytes came in, and `limit + 1` loads of
  -- the status for each byte that it sends back, on a console whose counter of writes has 64 bits. It hands the bytes
  -- to the console in their order and leaves none. Behind what went out before it sends, for each of them: the byte
  -- that the ring got, "\b \b" where a byte was taken back from the ring, and nothing where the ring stayed as it was.
  pub drain-Drained :
      (cs : List ℕ) (fuel : ℕ) (d : D) (s : Console)
      → came d ≡ cs
      → AreBytes cs
      → s.in_w < 2 ^ 64
      → length cs < fuel
      → Drained cs s d (drain uart (limit + 1) fuel d s)
  unfolding drain uart_intr
  drain-Drained [] zero d s e b w h = elim h [ ]
  drain-Drained (c ∷ cs) zero d s e b w h = elim h [ ]
  drain-Drained [] (suc fuel) d s e b w h =
      let (got, left, same) = uart_getc-nothing d e in
      ((uart_getc uart d).1, rw (got, drain) refl, left, same ∙ sym (append-nil (sent d)))
  drain-Drained (c ∷ cs) (suc fuel) d s e b w h =
      let (got, left, same) = uart_getc-first c cs d e in
      let (d1, echoed, sent1, came1) =
        put_bytes-Sent uart sent came busy limit port (echo c s) (uart_getc uart d).1
          (echo-AreBytes c s b.0) in
      let (d2, rest, none_left, kept) =
        drain-Drained cs fuel d1 (console_intr c s).1 (came1 ∙ left) b.1 (console_intr-lt c s w)
          (omega arith) in
      (
        d2,
        rw (got, drain, echoed, ◌>>=◌, rest, ◌>>=◌) refl,
        none_left,
        kept
            ∙ ap (λ t. t ++ all_shown cs (console_intr c s).1)
                (sent1 ∙ ap₂ ◌++◌ same (echo-shown c s w))
            ∙ append_assoc (sent d) (shown s (console_intr c s).1)
                (all_shown cs (console_intr c s).1),
      )
