-- ===== src/Plic.antt =====
-- src/plic.c: the interrupt controller, over its registers. Addresses count from its base.
use kernel_hobby.Base.{ℕ, ◌+◌, ◌*◌, ◌^◌}
use kernel_hobby.Trap.{uart0_irq}
use kernel_hobby.Virtio.Port.{Port, read32, write32}

abbrev pub plic_priority : ℕ
plic_priority = 0

abbrev pub plic_senable : ℕ → ℕ
plic_senable h = 0x2080 + h * 0x100

abbrev pub plic_sthreshold : ℕ → ℕ
plic_sthreshold h = 0x201000 + h * 0x2000

abbrev pub plic_sclaim : ℕ → ℕ
plic_sclaim h = 0x201004 + h * 0x2000

module _ {P : Type 0} (port : Port P) where
  unfoldable pub plic_init : P → P
  plic_init d = write32 port (plic_priority + uart0_irq * 4) 1 d

  -- `hart` is 0, whichever hart calls.
  unfoldable pub plic_init_hart : P → P
  plic_init_hart d =
      let hart : ℕ = 0 in
      write32 port (plic_sthreshold hart) 0 (write32 port (plic_senable hart) (2 ^ uart0_irq) d)

  unfoldable pub plic_claim : P → ℕ
  plic_claim d = read32 port (plic_sclaim 0) d

  unfoldable pub plic_complete : ℕ → P → P
  plic_complete irq d = write32 port (plic_sclaim 0) irq d
