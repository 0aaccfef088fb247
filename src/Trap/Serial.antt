-- ===== src/Trap/Serial.antt =====
-- src/trap.c, src/uart.c and src/console.c: an interrupt of the serial port puts what was typed in the
-- queue of the console.
use kernel_hobby.Base.{
  ℕ, ◌+◌, ◌^◌, ◌<◌, ◌≤◌, ◌≡◌, refl, ap, arith, true, false, some, List, [], ◌∷◌, length, ◌==◌,
}
use kernel_hobby.Console.{Console, console_intr}
use kernel_hobby.Console.Queue.{Queued, type_key, console_intr-Queued}
use kernel_hobby.Uart.{uart_intr}
use kernel_hobby.Trap.{
  Trapped, Event, Frame, resumed, uart0_irq, serial_trap, device_trap, kerneltrap,
}

-- the queue after some keys
abbrev pub type_keys : List ℕ → List ℕ → List ℕ
type_keys [] bs = bs
type_keys (c ∷ cs) bs = type_keys cs (type_key c bs)

in_w-console_intr :
    (key : ℕ) (bs : List ℕ) (s : Console)
    → Queued bs s
    → s.in_w + 1 < 2 ^ 63
    → (console_intr key s).1.in_w ≤ s.in_w + 1
unfolding console_intr
in_w-console_intr key bs s h far = ground arith

-- The loop of `uart_intr` types the keys one after another.
uart_intr-Queued :
    (keys bs : List ℕ) (s : Console)
    → Queued bs s
    → s.in_w + length keys < 2 ^ 63
    → Queued (type_keys keys bs) (uart_intr keys s).1
unfolding uart_intr
uart_intr-Queued [] bs s h far = h
uart_intr-Queued (c ∷ cs) bs s h far =
    let next = in_w-console_intr c bs s h (omega arith) in
    uart_intr-Queued cs (type_key c bs) (console_intr c s).1
      (console_intr-Queued c bs s h (omega arith)) (omega arith)

-- An interrupt of the serial port types the bytes that the port holds into the queue of the console, completes
-- the interrupt once, and goes back to the instruction that was interrupted; the file system is as it was.
pub kerneltrap-Queued :
    (etext id p : ℕ) (f : Frame) (e : Event) (t : Trapped) (bs : List ℕ)
    → e.scause ≡ 2 ^ 63 + 9
    → e.irq ≡ uart0_irq
    → Queued bs t.machine.console
    → t.machine.console.in_w + length e.pending < 2 ^ 63
    → (t' : Trapped) × (kerneltrap etext id p f e t ≡ some (resumed, t'))
      × Queued (type_keys e.pending bs) t'.machine.console
      × (t'.completed ≡ uart0_irq ∷ t.completed)
      × (t'.sepc ≡ t.sepc)
      × (t'.machine.fs ≡ t.machine.fs)
unfolding kerneltrap device_trap serial_trap
kerneltrap-Queued etext id p f e t bs cause irq h far =
    let came : kerneltrap etext id p f e t ≡ some (resumed, device_trap e t) =
      rw (kerneltrap, cause) refl in
    let hit : (e.irq == uart0_irq) ≡ true = ground arith in
    let some_irq : (e.irq == 0) ≡ false = ground arith in
    (
      device_trap e t,
      came,
      rw hit (uart_intr-Queued e.pending bs t.machine.console h far),
      rw some_irq (ap (λ q. q ∷ t.completed) irq),
      refl,
      rw hit refl,
    )
