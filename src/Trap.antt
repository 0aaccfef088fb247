-- ===== src/Trap.antt =====
-- src/trap.c: kerneltrap, which every interrupt, system call and page fault enters.
pub mod Serial
mod Tests
use kernel_hobby.Base.{
  ℕ, ◌+◌, ◌/◌, ◌%◌, ◌^◌, Bool, true, false, Option, none, some, List, [], ◌∷◌, ◌==◌, ◌||◌,
  if◌then◌else◌,
}
use kernel_hobby.Proc.{Kernel, yield, wakeup}
use kernel_hobby.Proc.Table.{on_input}
use kernel_hobby.Proc.User.{proc_pagefault}
use kernel_hobby.Syscall.{Machine, Outcome, syscall}
use kernel_hobby.Uart.{uart_intr}

abbrev pub timer_interval : ℕ
timer_interval = 1000000

abbrev pub uart0_irq : ℕ
uart0_irq = 10

-- The machine, `ticks`, the time of the next timer interrupt, `sepc` of the frame, and the interrupts that
-- were completed at the controller, the last first.
pub record Trapped : Type 0 where
  pub machine : Machine
  pub ticks : ℕ
  pub stimecmp : ℕ
  pub sepc : ℕ
  pub completed : List ℕ

-- What the hardware says: scause, stval, the time, the interrupt that `plic_claim` returns, and the bytes
-- that the serial port holds.
pub record Event : Type 0 where
  pub scause : ℕ
  pub stval : ℕ
  pub time : ℕ
  pub irq : ℕ
  pub pending : List ℕ

-- the frame: its address, a7, a0 and a1, and the memory that the process sees
pub record Frame : Type 0 where
  pub address : ℕ
  pub a7 : ℕ
  pub a0 : ℕ
  pub a1 : ℕ
  pub user : ℕ → ℕ

-- the end: back to what was interrupted, the end of a system call, or the endless loop
pub data Handled : Type 0 where
  resumed : Handled
  called : Outcome → Handled
  halted : Handled

abbrev pub clock_ticks : Trapped → ℕ
clock_ticks t = t.ticks

-- the timer interrupt on the core `id`
unfoldable pub timer_trap : ℕ → ℕ → Trapped → Trapped
timer_trap id time t =
    let k = t.machine.kernel in
    record t {
      ticks = (t.ticks + 1) % 2 ^ 64;
      stimecmp = (time + timer_interval) % 2 ^ 64;
      machine = record t.machine {
        kernel = elim (k.cpu_proc id) [ none ↦ k | some p ↦ yield id k ];
      };
    }

-- `uart_intr`, with the `wakeup` of `console_intr`
unfoldable pub serial_trap : List ℕ → Machine → Machine
serial_trap pending m =
    let (woke, c) = uart_intr pending m.console in
    record m { console = c; kernel = if woke then wakeup on_input m.kernel else m.kernel }

-- the interrupt of a device
unfoldable pub device_trap : Event → Trapped → Trapped
device_trap e t =
    let m = if e.irq == uart0_irq then serial_trap e.pending t.machine else t.machine in
    record t { machine = m; completed = if e.irq == 0 then t.completed else e.irq ∷ t.completed }

-- `f->sepc += 4` when the call returns. A call that sleeps, or never returns, leaves `sepc`.
abbrev pub next_sepc : Outcome → ℕ → ℕ
next_sepc (Outcome.back a) sepc = (sepc + 4) % 2 ^ 64
next_sepc (Outcome.filled bs) sepc = (sepc + 4) % 2 ^ 64
next_sepc (Outcome.entered entry) sepc = sepc
next_sepc Outcome.stopped sepc = sepc
next_sepc Outcome.ended sepc = sepc

-- the end of a system call: none is the endless loop of `kvmmap`
abbrev pub after_call : Option (Outcome × Machine) → Trapped → Option (Handled × Trapped)
after_call none t = none
after_call (some (o, m)) t = some (called o, record t { machine = m; sepc = next_sepc o t.sepc })

unfoldable pub fault_trap : ℕ → Event → Trapped → Handled × Trapped
fault_trap id e t =
    let m = t.machine in
    let (ok, k) = proc_pagefault (m.kernel.cpu_proc id) e.stval (e.scause == 15) m.fs m.kernel in
    (if ok then resumed else halted, record t { machine = record m { kernel = k } })

-- `kerneltrap` on the core `id`, where the process `p` runs when it makes a system call
unfoldable pub kerneltrap : ℕ → ℕ → ℕ → Frame → Event → Trapped → Option (Handled × Trapped)
kerneltrap etext id p f e t =
    let code = e.scause % 256 in
    if e.scause / 2 ^ 63 % 2 == 1
    then some (
      resumed,
      if code == 5 then timer_trap id e.time t else if code == 9 then device_trap e t else t,
    )
    else if e.scause == 8
    then after_call (syscall etext id p f.address f.user f.a7 f.a0 f.a1 t.machine) t
    else if e.scause == 13 || e.scause == 15
    then some (fault_trap id e t)
    else some (halted, t)
