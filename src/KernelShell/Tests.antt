-- ===== src/KernelShell/Tests.antt =====
-- Keys typed at the shell of src/shell.c.
use kernel_hobby.Base.{
  ℕ, ◌≡◌, refl, arith, map, false, true, List, [], ◌∷◌, ◌++◌, none, replicate, ◌==◌, if◌then◌else◌,
  codes,
}
use kernel_hobby.Uart.{dec_bytes, dec_loop}
use kernel_hobby.Proc.Table.{Proc, ProcState, nowhere, no_chan, running, unused}
use kernel_hobby.Proc.Dump.{proc_dump, dump_lines}
use kernel_hobby.Fs.Format.{Dirent}
use kernel_hobby.Fs.Print.{fs_ls, ls_lines}
use kernel_hobby.KernelShell.{World, KernelShell, execute, shell_input}
use kernel_hobby.KernelShell.Editor.{Shows, presses, shell_inputs, shell_inputs-Shows}

process : ProcState → Proc
process state = record {
  state = state;
  context = record { ra = nowhere; sp = 0 };
  kstack = 0;
  fn = 0;
  counter = 12;
  name = codes "sh" ++ replicate 6 0;
  pagetable = 0;
  is_user = true;
  pid = 1;
  ucode = 0x87FFF000;
  ustack = 0x87FFE000;
  chan = no_chan;
  parent = none;
  tf_va = 0;
  heap_top = 0x10000;
  mmap_base = 0;
  mmap_start = 0;
  mmap_size = 0;
}

text_file : Dirent
text_file = record { name = codes "hi" ++ replicate 54 0; size = 3; start = 19 }

-- one process, and one file on the disk
world : World
world = record {
  ticks = 123;
  kernel = record {
    kmem = record { mem = λ a. 0; freelist = 0; freecnt = 1000; refcnt = λ i. 1 };
    proctable = λ i. if i == 0 then process running else process unused;
    cpu_proc = λ id. none;
    next_pid = 2;
    kernel_pagetable = 0x87FFD000;
    satp = λ id. 0;
  };
  fs = record {
    disk = record { ready = true; image = λ b. []; history = [] };
    dir = text_file ∷ [];
    nfiles = 1;
    mounted = true;
    next_free = 20;
    total_blocks = 64;
    used = λ b. true;
    log_blk = [];
    log_overflow = false;
  };
}

shell : KernelShell
shell = record { line = replicate 128 0; len = 0; out = [] }

abbrev typed : List ℕ → List (World × ℕ)
typed keys = map (λ c. (world, c)) keys

-- A wrong key is rubbed out.
uptime_typed :
    (shell_inputs (typed (codes "upp" ++ 8 ∷ codes "time\r")) shell).out
    ≡ codes "upp" ++ 8 ∷ 32 ∷ 8 ∷ codes "time\nuptime: 12 sec\r\nhobby> "
unfolding world shell shell_input execute dec_bytes dec_loop
uptime_typed = refl

ps_typed :
    (shell_inputs (typed (codes "ps\r")) shell).out
    ≡ codes "ps\nthreads (preemptively scheduled):\r\n  sh (user pid=1): ticks=12\nhobby> "
unfolding world shell process shell_input execute dec_bytes dec_loop proc_dump dump_lines
ps_typed = refl

ls_typed : (shell_inputs (typed (codes "ls\r")) shell).out ≡ codes "ls\n  hi  (3 bytes)\r\nhobby> "
unfolding world shell text_file shell_input execute dec_bytes dec_loop fs_ls ls_lines
ls_typed = refl

begin_Shows : Shows shell (record { text = []; shown = [] })
unfolding shell
begin_Shows = record { size = refl; fits = omega arith; text = refl; out = refl }

shell_inputs-Shows_example :
    Shows
      (shell_inputs (typed (codes "upp" ++ 8 ∷ codes "time\r")) shell)
      (presses (typed (codes "upp" ++ 8 ∷ codes "time\r")) (record { text = []; shown = [] }))
shell_inputs-Shows_example =
    shell_inputs-Shows (typed (codes "upp" ++ 8 ∷ codes "time\r")) shell
      (record { text = []; shown = [] }) begin_Shows
