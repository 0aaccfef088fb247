-- ===== src/Uart/Port/Sends.antt =====
-- src/uart.c: the registers of the serial port send what the messages say.
use kernel_hobby.Base.{
  ℕ, zero, suc, ◌+◌, ◌%◌, ◌<◌, ◌≤◌, length, ◌≡◌, refl, sym, ◌∙◌, arith, Option, some, List, [], ◌∷◌,
  ◌++◌, append_assoc, append-nil, All, ◌>>=◌, dec_lt,
}
use kernel_hobby.Uart.{uart_puts}
use kernel_hobby.Uart.Digits.{read_dec, read_hex}
use kernel_hobby.Uart.Port.{
  Ns16550, IsSerial, uart_lsr, uart_thr, wait_idle, putc_raw, put_text, put_bytes, put_dec, put_hex,
}

abbrev pub AreBytes : List ℕ → Type 0
AreBytes = All (λ c. c < 256)

module _ {D : Type 0} (uart : Ns16550 D) (sent came : D → List ℕ) (busy : D → ℕ) (limit : ℕ)
    (port : IsSerial uart sent came busy limit) where
  wait_idle_lem :
      (fuel : ℕ) (d : D)
      → busy d < fuel
      → (d' : D) × (wait_idle uart fuel d ≡ some d')
        × (busy d' ≡ 0)
        × (sent d' ≡ sent d)
        × (came d' ≡ came d)
  unfolding wait_idle
  wait_idle_lem zero d h = elim h [ ]
  wait_idle_lem (suc fuel) d h = elim (dec_lt 0 (busy d)) [
    | yes waits ↦
        let d1 = (uart.load d uart_lsr).1 in
        let (d', e, free, same, left) =
          wait_idle_lem fuel d1 (omega (arith, port.nearer d waits)) in
        (
          d',
          rw (port.not_yet d waits) e,
          free,
          same ∙ port.status_sent d,
          left ∙ port.status_came d,
        )
    | no free ↦
        let z : busy d ≡ 0 = omega arith in
        (
          (uart.load d uart_lsr).1,
          rw (port.idle d z) refl,
          port.settled d z,
          port.status_sent d,
          port.status_came d,
        )
  ]

  -- A call that sends these bytes comes to its end; they went out behind what went out before, and what came in
  -- is still there.
  abbrev pub Sent : List ℕ → D → Option D → Type 0
  Sent bs d r = (d' : D) × (r ≡ some d') × (sent d' ≡ sent d ++ bs) × (came d' ≡ came d)

  putc_raw-Sent : (c : ℕ) (d : D) → c < 256 → Sent (c ∷ []) d (putc_raw uart (limit + 1) c d)
  unfolding putc_raw
  putc_raw-Sent c d h =
      let (d', e, free, same, left) = wait_idle_lem (limit + 1) d (omega (arith, port.bounded d)) in
      let byte : c % 256 ≡ c = omega arith in
      (
        uart.store d' uart_thr (c % 256),
        rw (e, ◌>>=◌) refl,
        port.stored d' (c % 256) free ∙ rw (same, byte) refl,
        port.stored_came d' (c % 256) ∙ left,
      )

  pub put_bytes-Sent :
      (bs : List ℕ) (d : D) → AreBytes bs → Sent bs d (put_bytes uart (limit + 1) bs d)
  unfolding put_bytes
  put_bytes-Sent [] d h = (d, refl, sym (append-nil (sent d)), refl)
  put_bytes-Sent (c ∷ cs) d h =
      let (d1, e, s1, c1) = putc_raw-Sent c d h.0 in
      let (d2, e2, s2, c2) = put_bytes-Sent cs d1 h.1 in
      (d2, rw (e, ◌>>=◌) e2, s2 ∙ rw s1 (append_assoc (sent d) (c ∷ []) cs), c2 ∙ c1)

  -- What sending a text and a number made of the port.
  pub record Says (s : List ℕ) (n : ℕ) (d : D) : Type 0 where
    pub text : D
    pub texted : put_text uart (limit + 1) s d ≡ some text
    pub text_sent : sent text ≡ uart_puts s (sent d)
    pub dec : D
    pub in_dec : put_dec uart (limit + 1) n d ≡ some dec
    pub decimal : List ℕ
    pub dec_sent : sent dec ≡ sent d ++ decimal
    pub dec_value : read_dec 0 decimal ≡ n
    pub dec_size : length decimal ≤ 20
    pub hex : D
    pub in_hex : put_hex uart (limit + 1) n d ≡ some hex
    pub digits : List ℕ
    pub hex_sent : sent hex ≡ sent d ++ (b'0' ∷ b'x' ∷ digits)
    pub hex_value : read_hex 0 digits ≡ n
    pub hex_size : length digits ≡ 16
