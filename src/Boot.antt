-- ===== src/Boot.antt =====
-- src/main.c: kmain, which each hart enters. The first one brings the kernel up and wakes the others, which
-- join it. What is printed is left out, and so are the calls of `scheduler` at the end.
pub mod Once
pub mod Mounted
pub mod Memory
mod Tests
use kernel_hobby.Base.{
  ℕ, zero, suc, ◌+◌, Bool, true, false, Option, none, some, List, [], ◌∷◌, update, ◌==◌,
  if◌then◌else◌, ◌>>=◌, codes,
}
use kernel_hobby.Hart.{Hart, trap_init, timer_init, kvminithart}
use kernel_hobby.Plic.{plic_init, plic_init_hart}
use kernel_hobby.Kalloc.{Kmem, kinit}
use kernel_hobby.Vm.{kvminit, with_bit}
use kernel_hobby.Fs.Disk.{Image, Disk}
use kernel_hobby.Fs.State.{Fs}
use kernel_hobby.Fs.Mount.{fs_init}
use kernel_hobby.Virtio.{Driver}
use kernel_hobby.Virtio.Port.{Port}
use kernel_hobby.Virtio.Init.{DiskCard, virtio_disk_init}
use kernel_hobby.Net.Device.{Net, Polls}
use kernel_hobby.Net.Demo.{Report, net_demo}
use kernel_hobby.Net.Init.{NetCard, net_init}
use kernel_hobby.Proc.{Kernel, procinit}
use kernel_hobby.Proc.User.{make_user_proc}

abbrev pub nhart : ℕ
nhart = 3

-- What the kernel finds: the addresses of the linker, the embedded program, the cards and the interrupt
-- controller, the blocks of the disk, and for the demo what the stack holds, whether the network card uses
-- its buffers, and what it receives.
pub record Board (D E P : Type 0) : Type 0 where
  pub end : ℕ
  pub etext : ℕ
  pub kernelvec : ℕ
  pub initcode : ℕ → ℕ
  pub disk_port : Port D
  pub blocks : D → Image
  pub bus : ℕ → Port E
  pub plic_port : Port P
  pub stack : ℕ → ℕ → ℕ
  pub takes : Bool
  pub polls : Polls

-- The static variables of the parts, with the harts and the devices. The page allocator is that of `kernel`.
-- `woken` has the harts for which `sbi_hart_start` was called, the last first.
pub record System (D E P : Type 0) : Type 0 where
  pub boot_taken : ℕ
  pub harts : ℕ → Hart
  pub plic : P
  pub uart_ier : ℕ
  pub kernel : Kernel
  pub disk : DiskCard D
  pub fs : Fs
  pub net : NetCard E
  pub report : Option Report
  pub pr_lock : ℕ
  pub woken : List ℕ

-- the loop that wakes the harts from `h` on, with `n` left, but not the hart `id`
unfoldable pub wake_from : ℕ → ℕ → ℕ → List ℕ → List ℕ
wake_from zero h id woken = woken
wake_from (suc n) h id woken = wake_from n (h + 1) id (if h == id then woken else h ∷ woken)

module _ {D E P : Type 0} (board : Board D E P) where
  abbrev pub on_hart : ℕ → (Hart → Hart) → System D E P → System D E P
  on_hart id f s = record s { harts = update s.harts id (f (s.harts id)) }

  -- `hart_main` up to `scheduler`, at a time
  unfoldable pub hart_main : ℕ → ℕ → System D E P → System D E P
  hart_main id time s =
      on_hart id
        (λ h. timer_init time (trap_init board.kernelvec (kvminithart s.kernel.kernel_pagetable h)))
        s

  -- from `trap_init` to `timer_init`
  unfoldable pub start_interrupts : ℕ → ℕ → System D E P → System D E P
  start_interrupts id time s =
      on_hart id (λ h. timer_init time (trap_init board.kernelvec h))
        (record s {
          plic = plic_init_hart board.plic_port (plic_init board.plic_port s.plic);
          uart_ier = with_bit 0 s.uart_ier;
        })

  abbrev pub paging_on : ℕ → System D E P → ℕ × Kmem → System D E P
  paging_on id s (pt, kmem) =
      on_hart id (kvminithart pt)
        (record s { kernel = record s.kernel { kmem = kmem; kernel_pagetable = pt } })

  -- `kinit`, `kvminit` and `kvminithart`; none is the endless loop of `kvmmap`
  unfoldable pub start_memory : ℕ → System D E P → Option (System D E P)
  start_memory id s =
      kvminit board.etext (kinit board.end s.kernel.kmem) >>= λ r. some (paging_on id s r)

  -- the disk that the file system sees through the driver
  abbrev pub disk_behind : Driver D → Disk
  disk_behind d = record { ready = d.disk_ok; image = board.blocks d.card; history = [] }

  -- `virtio_disk_init` and `fs_init`
  unfoldable pub start_files : System D E P → System D E P
  start_files s =
      let disk = virtio_disk_init board.disk_port (record s.disk { kmem = s.kernel.kmem }) in
      record s {
        disk = disk;
        kernel = record s.kernel { kmem = disk.kmem };
        fs = fs_init (record s.fs { disk = disk_behind disk.driver });
      }

  abbrev pub net_state : NetCard E → Net
  net_state c = record { net_ok = c.net_ok; my_mac = c.my_mac; sent = []; takes = board.takes }

  -- `if (net_init() == 0) net_demo();`
  unfoldable pub start_network : System D E P → System D E P
  start_network s =
      let (ok, card) = net_init board.bus (record s.net { kmem = s.kernel.kmem }) in
      record s {
        net = card;
        kernel = record s.kernel { kmem = card.kmem };
        report = if ok then some (net_demo board.stack board.polls (net_state card)).0 else none;
      }

  -- `procinit` and `make_user_proc`, whose result is not looked at; none is the endless loop of `kvmmap`
  unfoldable pub start_shell : System D E P → Option (System D E P)
  start_shell s =
      make_user_proc board.etext board.initcode (codes "sh") (procinit s.kernel) >>= λ r.
      some (record s { kernel = r.1 })

  abbrev pub wake_others : ℕ → System D E P → System D E P
  wake_others id s = record s { pr_lock = 0; woken = wake_from nhart 0 id s.woken }

  -- the part of `kmain` for the first hart, up to `scheduler`
  unfoldable pub first_hart : ℕ → ℕ → System D E P → Option (System D E P)
  first_hart id time s = do
    s1 ← start_memory id (start_interrupts id time s)
    s2 ← start_shell (start_network (start_files s1))
    some (wake_others id s2)

  -- `kmain` on the hart `id`: the exchange of `boot_taken` is one step.
  unfoldable pub kmain : ℕ → ℕ → System D E P → Option (System D E P)
  kmain id time s =
      let t = record s { boot_taken = 1 } in
      if s.boot_taken == 0 then first_hart id time t else some (hart_main id time t)
