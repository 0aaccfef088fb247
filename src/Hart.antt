-- ===== src/Hart.antt =====
-- src/csr.h, and the code that sets the registers of a hart: trap_init and timer_init of src/trap.c,
-- kvminithart and switch_satp of src/vm.c, enter_user of src/proc.c. A hart is its registers.
pub mod Modes
use kernel_hobby.Base.{ℕ, ◌+◌, ◌%◌, ◌^◌, Bool}
use kernel_hobby.Trap.{timer_interval}
use kernel_hobby.Vm.{bit, with_bit, without_bit, satp_for, userva, userstacktop}

abbrev pub sstatus_sie : ℕ
sstatus_sie = 1

abbrev pub sstatus_spie : ℕ
sstatus_spie = 5

abbrev pub sstatus_spp : ℕ
sstatus_spp = 8

abbrev pub sstatus_sum : ℕ
sstatus_sum = 18

abbrev pub sie_stie : ℕ
sie_stie = 5

abbrev pub sie_seie : ℕ
sie_seie = 9

pub record Hart : Type 0 where
  pub tp : ℕ
  pub sp : ℕ
  pub sstatus : ℕ
  pub sie : ℕ
  pub stvec : ℕ
  pub sepc : ℕ
  pub stimecmp : ℕ
  pub satp : ℕ

unfoldable pub intr_on : Hart → Hart
intr_on h = record h { sstatus = with_bit sstatus_sie h.sstatus }

abbrev pub interrupts_on : Hart → Hart
interrupts_on h = intr_on h

unfoldable pub intr_off : Hart → Hart
intr_off h = record h { sstatus = without_bit sstatus_sie h.sstatus }

unfoldable pub intr_get : Hart → Bool
intr_get h = bit sstatus_sie h.sstatus

-- `kernelvec` is the address of the trap vector.
unfoldable pub trap_init : ℕ → Hart → Hart
trap_init kernelvec h = record h {
  stvec = kernelvec;
  sie = with_bit sie_seie (with_bit sie_stie h.sie);
  sstatus = with_bit sstatus_sum h.sstatus;
}

unfoldable pub timer_init : ℕ → Hart → Hart
timer_init time h = record h { stimecmp = (time + timer_interval) % 2 ^ 64 }

unfoldable pub switch_satp : ℕ → Hart → Hart
switch_satp pt h = record h { satp = satp_for pt }

unfoldable pub kvminithart : ℕ → Hart → Hart
kvminithart kernel_pagetable h = record h { satp = satp_for kernel_pagetable }

-- `enter_user` behind its `release`, up to `sret`
unfoldable pub enter_user : Hart → Hart
enter_user h = record h {
  sstatus = with_bit sstatus_sum (with_bit sstatus_spie (without_bit sstatus_spp h.sstatus));
  sepc = userva;
  sp = userstacktop;
}
