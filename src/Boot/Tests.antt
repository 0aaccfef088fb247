-- ===== src/Boot/Tests.antt =====
-- A board with a disk that `mkfs` made, and the theorems of the boot there.
use kernel_hobby.Base.{
  ℕ, ◌≡◌, ◌||◌, refl, arith, false, none, some, List, [], ◌∷◌, ◌==◌, if◌then◌else◌,
}
use kernel_hobby.Fs.Disk.{Image}
use kernel_hobby.Fs.Mount.Laws.{boot}
use kernel_hobby.Mkfs.{SourceFile, image_blocks, image_of}
use kernel_hobby.Hart.{Hart}
use kernel_hobby.Proc.Table.{Proc, unused, nowhere, no_chan}
use kernel_hobby.Virtio.{Device, elsewhere}
use kernel_hobby.Virtio.Port.{
  Port, mmio_magic, mmio_version, mmio_device_id, mmio_vendor_id, mmio_status,
}
use kernel_hobby.Kalloc.{Kmem, kinit}
use kernel_hobby.Kalloc.Init.{at_boot}
use kernel_hobby.Net.Init.{Vq}
use kernel_hobby.Boot.{Board, System, start_memory, wake_from, nhart}
use kernel_hobby.Boot.Memory.{PagingOn, start_memory-PagingOn}

-- a disk that never had a request, and remembers its status
record Platter : Type 0 where
  status : ℕ
  blocks : Image

abbrev registers : Port Platter
registers = record {
  load = λ d off.
      if off == mmio_magic
      then 0x74726976
      else if off == mmio_version || off == mmio_device_id
      then 2
      else if off == mmio_vendor_id
      then 0x554d4551
      else if off == mmio_status
      then d.status
      else 1024;
  store = λ off v d. if off == mmio_status then record d { status = v } else d;
}

abbrev none_yet : Platter → ℕ
none_yet d = 0

-- a device that answers nothing, behind it
abbrev silent : Device Platter
silent q buf d = record { used_idx = 0; buffer = buf; bstatus = 1; card = d }

abbrev no_card : Port ℕ
no_card = record { load = λ d off. d; store = λ off v d. d }

abbrev board : Board Platter ℕ ℕ
board = record {
  end = 0x80240000;
  etext = 0x80210000;
  kernelvec = 0x80201000;
  initcode = λ a. 0;
  disk_port = registers;
  blocks = λ d. d.blocks;
  bus = λ i. no_card;
  plic_port = no_card;
  stack = λ n a. 0;
  takes = false;
  polls = [];
}

abbrev two_files : List SourceFile
two_files =
    record { path = b'd' ∷ b'/' ∷ b'a' ∷ []; contents = 1 ∷ 2 ∷ 3 ∷ [] }
    ∷ record { path = b'b' ∷ b'/' ∷ b'c' ∷ []; contents = 7 ∷ [] }
    ∷ []

abbrev no_process : Proc
no_process = record {
  state = unused;
  context = record { ra = nowhere; sp = 0 };
  kstack = 0;
  fn = 0;
  counter = 0;
  name = [];
  pagetable = 0;
  is_user = false;
  pid = 0;
  ucode = 0;
  ustack = 0;
  chan = no_chan;
  parent = none;
  tf_va = 0;
  heap_top = 0;
  mmap_base = 0;
  mmap_start = 0;
  mmap_size = 0;
}

abbrev no_queue : Vq
no_queue = record {
  desc = 0;
  avail = 0;
  used = 0;
  used_seen = 0;
  buffers = λ i. record { addr = 0; len = 0; flags = 0; next = 0 };
  avail_idx = 0;
  avail_ring = λ i. 0;
}

abbrev hart : ℕ → Hart
hart id = record {
  tp = id;
  sp = 0;
  sstatus = 0;
  sie = 0;
  stvec = 0;
  sepc = 0;
  stimecmp = 0;
  satp = 0;
}

abbrev powered : System Platter ℕ ℕ
powered = record {
  boot_taken = 0;
  harts = hart;
  plic = 0;
  uart_ier = 0;
  kernel = record {
    kmem = record { mem = λ a. 0; freelist = 0; freecnt = 0; refcnt = λ i. 0 };
    proctable = λ i. no_process;
    cpu_proc = λ id. none;
    next_pid = 1;
    kernel_pagetable = 0;
    satp = λ id. 0;
  };
  disk = record {
    driver = record {
      shared = record {
        desc = λ i. record { addr = elsewhere; len = 0; flags = 0; next = 0 };
        avail_idx = 0;
        avail_ring = λ i. 0;
        breq = record { type = 0; reserved = 0; sector = 0 };
      };
      used_seen = 0;
      disk_ok = false;
      card = record { status = 0; blocks = image_of (image_blocks two_files) };
    };
    desc = 0;
    avail = 0;
    used = 0;
    misplaced = record {
      desc = λ i. record { addr = elsewhere; len = 0; flags = 0; next = 0 };
      avail_idx = 0;
      avail_ring = λ i. 0;
      breq = record { type = 0; reserved = 0; sector = 0 };
    };
    kmem = record { mem = λ a. 0; freelist = 0; freecnt = 0; refcnt = λ i. 0 };
    out = [];
  };
  fs = boot (λ b. []);
  net = record {
    card = 0;
    net_base = none;
    net_ok = false;
    my_mac = record { m0 = 0; m1 = 0; m2 = 0; m3 = 0; m4 = 0; m5 = 0 };
    rxq = no_queue;
    txq = no_queue;
    rxbuf = λ i. 0;
    txframe = 0;
    kmem = record { mem = λ a. 0; freelist = 0; freecnt = 0; refcnt = λ i. 0 };
    out = [];
  };
  report = none;
  pr_lock = 0;
  woken = [];
}

-- four pages at the end of the memory
abbrev four_pages : Kmem
four_pages = kinit 0x87FFC000 (at_boot (λ a. 7))

abbrev has_memory : System Platter ℕ ℕ
has_memory = record powered { kernel = record powered.kernel { kmem = four_pages } }

-- The hart 1 booted, and wakes the harts 2 and 0.
woken_run : wake_from nhart 0 1 [] ≡ 2 ∷ 0 ∷ []
unfolding wake_from
woken_run = refl

abbrev booted : System Platter ℕ ℕ
booted = record powered { boot_taken = 1 }

start_memory-PagingOn_example :
    (s' : System Platter ℕ ℕ) × (free : List ℕ) × (start_memory board 1 powered ≡ some s')
    × PagingOn board 1 free s'
start_memory-PagingOn_example =
    start_memory-PagingOn board 1 powered (λ a. 0) refl (omega arith) (omega arith) (omega arith)
      (omega arith) (omega arith)
