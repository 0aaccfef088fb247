-- ===== src/Hart/Modes.antt =====
-- src/csr.h and src/proc.c: the bits of sstatus.
use kernel_hobby.Base.{◌≡◌, true, false, arith}
use kernel_hobby.Vm.{bit}
use kernel_hobby.Hart.{Hart, intr_get, enter_user}

-- A hart on its way to a program: `sret` enters U-mode with interrupts on, and the kernel can reach the pages
-- of the program. Until then the interrupts stay as they were.
pub enter_user_lem :
    (h : Hart)
    → (bit 8 (enter_user h).sstatus ≡ false)
      × (bit 5 (enter_user h).sstatus ≡ true)
      × (bit 18 (enter_user h).sstatus ≡ true)
      × (intr_get (enter_user h) ≡ intr_get h)
unfolding enter_user intr_get
enter_user_lem h = (ground arith, ground arith, ground arith, ground arith)
