-- ===== src/Uart/Port/Tests.antt =====
-- A serial port that needs one load of its status after each byte, and the registers of src/uart.c on it.
use kernel_hobby.Base.{
  ℕ, ◌+◌, ◌<◌, ◌≡◌, refl, arith, true, false, Bool, some, List, [], ◌∷◌, ◌++◌, ◌==◌, if◌then◌else◌,
  ap,
}
use kernel_hobby.Console.{Console}
use kernel_hobby.Uart.Port.{
  Ns16550, IsSerial, uart_enable_rx, uart_getc, drain, uart_ier, uart_lsr, uart_thr,
}
use kernel_hobby.Uart.Port.Drains.{Drained, drain-Drained}

record Line : Type 0 where
  out : List ℕ
  input : List ℕ
  pausing : Bool
  ier : ℕ

abbrev first_of : List ℕ → ℕ
first_of [] = 0
first_of (c ∷ cs) = c

abbrev rest_of : List ℕ → List ℕ
rest_of [] = []
rest_of (c ∷ cs) = cs

abbrev any : List ℕ → ℕ
any [] = 0
any (c ∷ cs) = 1

abbrev line : Ns16550 Line
line = record {
  load = λ d off.
      if off == uart_lsr
      then ((if d.pausing then 0 else 32) + any d.input, record d { pausing = false })
      else if off == 0
      then (first_of d.input, record d { input = rest_of d.input })
      else (d.ier, d);
  store = λ d off v.
      if off == uart_thr
      then record d { out = if d.pausing then d.out else d.out ++ (v ∷ []); pausing = true }
      else if off == uart_ier
      then record d { ier = v }
      else d;
}

any-lt : (cs : List ℕ) → any cs < 2
any-lt [] = omega arith
any-lt (c ∷ cs) = omega arith

abbrev busy : Line → ℕ
busy d = if d.pausing then 1 else 0

line-IsSerial : IsSerial line (λ d. d.out) (λ d. d.input) busy 1
line-IsSerial = record {
  bounded = λ d. ground arith;
  idle = λ d h. ground (arith, any-lt d.input);
  settled = λ d h. refl;
  not_yet = λ d h. ground (arith, any-lt d.input);
  nearer = λ d h. h;
  status_sent = λ d. refl;
  status_came = λ d. refl;
  stored = λ d c h. ground arith;
  stored_came = λ d c. refl;
  nothing = λ d e. ground (arith, ap any e);
  ready = λ d c cs e. ground (arith, ap any e);
  taken = λ d c cs e. (ap first_of e, ap rest_of e);
  taken_sent = λ d. refl;
}

abbrev open_line : Line
open_line = record { out = b'>' ∷ []; input = b'l' ∷ b's' ∷ []; pausing = true; ier = 0 }

abbrev console : Console
console = record { inbuf = λ i. 0; in_w = 0; in_r = 0 }

drain-Drained_example :
    Drained line
      (λ d. d.out)
      (λ d. d.input)
      busy
      1
      line-IsSerial
      (b'l' ∷ b's' ∷ [])
      console
      open_line
      (drain line 2 3 open_line console)
drain-Drained_example =
    drain-Drained line (λ d. d.out) (λ d. d.input) busy 1 line-IsSerial (b'l' ∷ b's' ∷ []) 3
      open_line console refl (omega arith) (omega arith) (omega arith)

-- the interrupt for received bytes is on, and a byte waits
receives : ((uart_enable_rx line open_line).ier ≡ 1) × ((uart_getc line open_line).0 ≡ some b'l')
unfolding uart_enable_rx uart_getc
receives = (refl, refl)
