-- ===== src/Trap/Tests.antt =====
-- An interrupt of the serial port at a machine without processes.
use kernel_hobby.Base.{◌≡◌, refl, arith, true, false, none, some, [], ◌∷◌, replicate}
use kernel_hobby.Console.Queue.{Queued}
use kernel_hobby.Fs.Mount.Laws.{boot}
use kernel_hobby.Proc.{Kernel}
use kernel_hobby.Proc.Table.{Proc, unused, nowhere, no_chan}
use kernel_hobby.Syscall.{Machine}
use kernel_hobby.Trap.{Trapped, Event, Frame, resumed, kerneltrap}
use kernel_hobby.Trap.Serial.{type_keys, kerneltrap-Queued}

abbrev no_process : Proc
no_process = record {
  state = unused;
  context = record { ra = nowhere; sp = 0 };
  kstack = 0;
  fn = 0;
  counter = 0;
  name = replicate 8 0;
  pagetable = 0;
  is_user = false;
  pid = 0;
  ucode = 0;
  ustack = 0;
  chan = no_chan;
  parent = none;
  tf_va = 0;
  heap_top = 0;
  mmap_base = 0;
  mmap_start = 0;
  mmap_size = 0;
}

abbrev idle : Kernel
idle = record {
  kmem = record { mem = λ a. 0; freelist = 0; freecnt = 0; refcnt = λ i. 0 };
  proctable = λ i. no_process;
  cpu_proc = λ id. none;
  next_pid = 1;
  kernel_pagetable = 0x87FFD000;
  satp = λ id. 0;
}

-- a machine with an empty console
abbrev machine : Machine
machine = record {
  kernel = idle;
  fs = boot (λ b. []);
  console = record { inbuf = λ i. 0; in_w = 5; in_r = 5 };
  elfbuf = λ i. 0;
  net = record {
    polls = [];
    stack = λ n i. 0;
    net = record {
      net_ok = false;
      my_mac = record { m0 = 0; m1 = 0; m2 = 0; m3 = 0; m4 = 0; m5 = 0 };
      sent = [];
      takes = true;
    };
  };
}

abbrev before : Trapped
before = record { machine = machine; ticks = 0; stimecmp = 0; sepc = 0x1000; completed = [] }

abbrev key_event : Event
key_event = record {
  scause = 0x8000000000000009;
  stval = 0;
  time = 0;
  irq = 10;
  pending = b'h' ∷ b'i' ∷ [];
}

abbrev no_frame : Frame
no_frame = record { address = 0; a7 = 0; a0 = 0; a1 = 0; user = λ a. 0 }

machine-Queued : Queued [] machine.console
machine-Queued = record { fits = omega arith; count = refl; far = omega arith; bytes = refl }

kerneltrap-Queued_example :
    (t' : Trapped) × (kerneltrap 0 0 0 no_frame key_event before ≡ some (resumed, t'))
    × Queued (type_keys (b'h' ∷ b'i' ∷ []) []) t'.machine.console
    × (t'.completed ≡ 10 ∷ [])
    × (t'.sepc ≡ 0x1000)
    × (t'.machine.fs ≡ machine.fs)
kerneltrap-Queued_example =
    kerneltrap-Queued 0 0 0 no_frame key_event before [] refl refl machine-Queued (omega arith)
