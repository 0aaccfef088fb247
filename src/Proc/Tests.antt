-- ===== src/Proc/Tests.antt =====
-- The process table of src/proc.c at concrete states, and its theorems there.
use kernel_hobby.Base.{
  false, [], ℕ, ◌≡◌, ◌≢◌, ◌+◌, ltb, update, update_ne, refl, true, Option, none, some, arith,
  replicate, ◌==◌, if◌then◌else◌,
}
use kernel_hobby.Kalloc.{kalloc, kref_inc, refidx}
use kernel_hobby.Vm.{copy_page, proc_pagetable, uvm_cow_share, cow_share_from}
use kernel_hobby.Proc.{
  Kernel, reaped, free_slot, fork_memory, proc_fork, proc_exit, proc_wait, sleep, sleep_resumed,
  dispatch, switch_back, wakeup,
}
use kernel_hobby.Proc.Table.{
  Proc, ProcState, unused, runnable, running, nowhere, Chan, no_chan, first_slot,
}
use kernel_hobby.Proc.Cores.{dispatched, slept, exited, more, done, Exclusive, steps-Exclusive}
use kernel_hobby.Proc.Pass.{is_runnable, scheduler_pass, Runs, scheduler_pass-Runs}
use kernel_hobby.Proc.Fork.{HasPids}
use kernel_hobby.Proc.Wait.{exit-proc_wait}
use kernel_hobby.Fs.State.{Fs}

-- a user process
abbrev process : ProcState → ℕ → Option ℕ → Proc
process state pid parent = record {
  state = state;
  context = record { ra = nowhere; sp = 0 };
  kstack = 0;
  fn = 0;
  counter = 0;
  name = replicate 8 0;
  pagetable = 0;
  is_user = true;
  pid = pid;
  ucode = 0x87FFF000;
  ustack = 0x87FFE000;
  chan = no_chan;
  parent = parent;
  tf_va = 0;
  heap_top = 0x10000;
  mmap_base = 0;
  mmap_start = 0;
  mmap_size = 0;
}

-- Core 0 runs the process 0, core 1 its child 1, and no page is left.
abbrev family : Kernel
family = record {
  kmem = record { mem = λ a. 0; freelist = 0; freecnt = 0; refcnt = λ i. 1 };
  proctable = λ i.
      if i == 0
      then process running 1 none
      else if i == 1
      then process running 2 (some 0)
      else process unused 0 none;
  cpu_proc = λ id. if id == 0 then some 0 else if id == 1 then some 1 else none;
  next_pid = 3;
  kernel_pagetable = 0x87FFD000;
  satp = λ id. 0;
}

family-Exclusive : Exclusive family
family-Exclusive = record {
  runs = λ id p h. ground (arith, h);
  alone = λ id id' p h h'. ground (arith, h, h');
}

family-HasPids : HasPids family
family-HasPids = record {
  below = λ i l. ground (arith, l);
  distinct = λ i j l l' e. ground (arith, l, l', e);
}

-- The process 0 sleeps, its child ends, and core 2 looks at the slot 0.
steps-Exclusive_example :
    Exclusive
      (dispatch 2 0 (switch_back 1 (proc_exit 1 (switch_back 0 (sleep 0 (Chan.on_proc 0) family)))))
unfolding sleep switch_back proc_exit wakeup
steps-Exclusive_example =
    steps-Exclusive
      (more (more (more done (slept 0 (Chan.on_proc 0))) (exited 1 1 refl)) (dispatched 2 0 refl))
      family-Exclusive

exit-proc_wait_example :
    (((proc_exit 1 (proc_wait 0 0 family).1).proctable 0).state ≡ runnable)
    × ((proc_wait 1 0 (sleep_resumed 0 (dispatch 1 0 (proc_exit 1 (proc_wait 0 0 family).1)))).0
        ≡ reaped 2)
unfolding proc_wait first_slot
exit-proc_wait_example =
    exit-proc_wait 0 1 0 1 family (omega arith) (omega arith) (omega arith) refl refl refl

some_result : Option (Option ℕ × Kernel) → Option ℕ × Kernel
some_result none = (none, family)
some_result (some r) = r

-- There is no memory left, which `proc_fork` does not look at.
abbrev family_forked : Option ℕ × Kernel
family_forked = some_result (proc_fork 0x80210000 0 0x4F00 family)

forked_run : proc_fork 0x80210000 0 0x4F00 family ≡ some family_forked
unfolding some_result proc_fork fork_memory free_slot first_slot kalloc kref_inc proc_pagetable
    uvm_cow_share cow_share_from refidx copy_page
forked_run = refl

-- a file system that is not mounted
abbrev unmounted : Fs
unmounted = record {
  disk = record { ready = false; image = λ b. []; history = [] };
  dir = [];
  nfiles = 0;
  mounted = false;
  next_free = 0;
  total_blocks = 0;
  used = λ b. false;
  log_blk = [];
  log_overflow = false;
}

-- Each process yields at once.
abbrev yields : ℕ → Kernel → Kernel
yields i k = record k {
  proctable = update k.proctable i (record (k.proctable i) { state = runnable });
}

yields_keeps :
    (i j : ℕ) (k : Kernel) → i ≢ j → is_runnable k j ≡ true → is_runnable (yields i k) j ≡ true
yields_keeps i j k ne ready =
    rw (update_ne k.proctable i j (record (k.proctable i) { state = runnable }) ne) ready

-- three processes that wait for a core
abbrev waiting : Kernel
waiting = record family {
  proctable = λ i. if ltb i 3 then process runnable (i + 1) none else process unused 0 none;
  cpu_proc = λ id. none;
}

scheduler_pass-Runs_example : Runs yields 1 2 waiting (scheduler_pass yields 1 waiting)
scheduler_pass-Runs_example = scheduler_pass-Runs yields 1 yields_keeps 2 waiting (omega arith) refl
