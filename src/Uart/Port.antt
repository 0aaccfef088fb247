-- ===== src/Uart/Port.antt =====
-- src/uart.c: the registers of the serial port. The port is a parameter: a read of a register can change it. A
-- loop that waits for the port takes fuel, and its result is none when that runs out.
pub mod Sends
pub mod Drains
mod Tests
use kernel_hobby.Base.{
  ℕ, zero, suc, ◌*◌, ◌+◌, ◌/◌, ◌%◌, Bool, true, false, ◌||◌, Option, none, some, List, [], ◌∷◌,
  ◌++◌, ◌<◌, ◌≤◌, ◌≡◌, ◌==◌, if◌then◌else◌, ◌>>=◌,
}
use kernel_hobby.Spinlock.{Locked, initlock}
use kernel_hobby.Uart.{dec_bytes, hex_loop}
use kernel_hobby.Console.{Console, console_intr, echo}

abbrev pub uart_rbr : ℕ
uart_rbr = 0

abbrev pub uart_thr : ℕ
uart_thr = 0

abbrev pub uart_ier : ℕ
uart_ier = 1

abbrev pub uart_lsr : ℕ
uart_lsr = 5

-- the bits LSR_RX_READY and LSR_TX_IDLE of the line status
abbrev pub rx_ready : ℕ → Bool
rx_ready lsr = lsr % 2 == 1

abbrev pub tx_idle : ℕ → Bool
tx_idle lsr = lsr / 32 % 2 == 1

-- `uart_lock` is made free; the port itself is left as it is.
abbrev pub uart_init : Locked → Locked
uart_init lock = initlock lock

-- loads and stores of the bytes at `uart`
pub record Ns16550 (D : Type 0) : Type 0 where
  pub load : D → ℕ → ℕ × D
  pub store : D → ℕ → ℕ → D

module _ {D : Type 0} (uart : Ns16550 D) where
  -- the loop of `putc_raw`, with at most `fuel` reads of the line status
  unfoldable pub wait_idle : ℕ → D → Option D
  wait_idle zero d = none
  wait_idle (suc fuel) d =
      let (lsr, d') = uart.load d uart_lsr in
      let rest = wait_idle fuel d' in if tx_idle lsr then some d' else rest

  unfoldable pub putc_raw : ℕ → ℕ → D → Option D
  putc_raw fuel c d = do d' ← wait_idle fuel d; some (uart.store d' uart_thr (c % 256))

  -- the loop of `uart_puts`
  unfoldable pub put_text : ℕ → List ℕ → D → Option D
  put_text fuel [] d = some d
  put_text fuel (c ∷ cs) d = do
    d1 ← if c == b'\n' then putc_raw fuel b'\r' d else some d
    d2 ← putc_raw fuel c d1
    put_text fuel cs d2

  -- the second loop of `uart_dec`, over `buf`, and that of `uart_hex`
  unfoldable pub put_bytes : ℕ → List ℕ → D → Option D
  put_bytes fuel [] d = some d
  put_bytes fuel (c ∷ cs) d = do d' ← putc_raw fuel c d; put_bytes fuel cs d'

  abbrev pub put_dec : ℕ → ℕ → D → Option D
  put_dec fuel n d = put_bytes fuel (dec_bytes n) d

  abbrev pub put_hex : ℕ → ℕ → D → Option D
  put_hex fuel n d = put_bytes fuel (b'0' ∷ b'x' ∷ hex_loop 16 n) d

  unfoldable pub uart_enable_rx : D → D
  uart_enable_rx d =
      let (ier, d') = uart.load d uart_ier in uart.store d' uart_ier (ier / 2 * 2 + 1)

  -- none is -1
  unfoldable pub uart_getc : D → Option ℕ × D
  uart_getc d =
      let (lsr, d') = uart.load d uart_lsr in
      let (c, d'') = uart.load d' uart_rbr in if rx_ready lsr then (some c, d'') else (none, d')

  -- `uart_intr`, with at most `fuel` calls of `uart_getc`, and `polls` reads of the line status for each byte of an
  -- echo; the flag says whether it wakes the readers
  unfoldable pub drain : ℕ → ℕ → D → Console → Option (Bool × Console × D)
  drain polls zero d s = none
  drain polls (suc fuel) d s =
      let (got, d') = uart_getc d in
      elim got [
        | none ↦ some (false, s, d')
        | some c ↦
            let (woke, s') = console_intr c s in
            do
              shown ← put_bytes polls (echo c s) d'
              (later, t, d'') ← drain polls fuel shown s'
              some (woke || later, t, d'')
      ]

-- What the code relies on of the port: a load of the line status says whether a byte has come in, and whether the
-- port takes one; after `limit` loads at most it does, and a byte that is stored then is the next to go
-- out. A load of the receive buffer takes the first byte that came in.
pub record IsSerial {D : Type 0} (uart : Ns16550 D) (sent came : D → List ℕ) (busy : D → ℕ)
    (limit : ℕ) : Type 0 where
  pub bounded : (d : D) → busy d ≤ limit
  pub idle : (d : D) → busy d ≡ 0 → tx_idle (uart.load d uart_lsr).0 ≡ true
  pub settled : (d : D) → busy d ≡ 0 → busy (uart.load d uart_lsr).1 ≡ 0
  pub not_yet : (d : D) → 0 < busy d → tx_idle (uart.load d uart_lsr).0 ≡ false
  pub nearer : (d : D) → 0 < busy d → busy (uart.load d uart_lsr).1 < busy d
  pub status_sent : (d : D) → sent (uart.load d uart_lsr).1 ≡ sent d
  pub status_came : (d : D) → came (uart.load d uart_lsr).1 ≡ came d
  pub stored : (d : D) (c : ℕ) → busy d ≡ 0 → sent (uart.store d uart_thr c) ≡ sent d ++ (c ∷ [])
  pub stored_came : (d : D) (c : ℕ) → came (uart.store d uart_thr c) ≡ came d
  pub nothing : (d : D) → came d ≡ [] → rx_ready (uart.load d uart_lsr).0 ≡ false
  pub ready :
      (d : D) (c : ℕ) (cs : List ℕ) → came d ≡ c ∷ cs → rx_ready (uart.load d uart_lsr).0 ≡ true
  pub taken :
      (d : D) (c : ℕ) (cs : List ℕ)
      → came d ≡ c ∷ cs
      → ((uart.load d uart_rbr).0 ≡ c) × (came (uart.load d uart_rbr).1 ≡ cs)
  pub taken_sent : (d : D) → sent (uart.load d uart_rbr).1 ≡ sent d
