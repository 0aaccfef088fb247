-- ===== src/Proc.antt =====
-- src/proc.c and src/proc.h: the process table, fork, exit, wait, sleep, wakeup, yield and the scheduler.
-- A process is named by its slot. The code between two releases of `pt_lock` is one step; a call of
-- `swtch` ends a step, and what follows it belongs to the step that resumes the process.
pub mod Fault
pub mod Pass
pub mod Table
pub mod Wait
pub mod Cores
pub mod Fork
pub mod User
pub mod Dump
mod Tests
use kernel_hobby.Base.{
  ℕ, zero, suc, ◌+◌, ◌-◌, ◌*◌, ◌/◌, ◌%◌, ◌^◌, Bool, true, false, not, ◌&&◌, ◌||◌, Option, none,
  some, List, [], ◌∷◌, replicate, update, ltb, leb, ◌==◌, if◌then◌else◌, ◌>>=◌,
}
use kernel_hobby.Fs.Change.{copy_name}
use kernel_hobby.Kalloc.{Kmem, pgsize, kalloc, kfree, kref_inc}
use kernel_hobby.Vm.{
  satp_for, copy_page, store, heapbase, userstack, userstacktop, proc_pagetable, vm_free_range,
  free_pagetable, uvm_cow_share,
}
use Table.{
  Proc, ProcState, unused, runnable, running, sleeping, zombie, Chan, no_chan, on_proc, Entry,
  nowhere, thread_start, forkret, Context, nproc, first_slot, same_state, same_chan, is_slot,
  on_input,
}

-- The static variables, the memory, and the register satp of each core. `cpu_proc` has the process that each core
-- runs.
pub record Kernel : Type 0 where
  pub kmem : Kmem
  pub proctable : ℕ → Proc
  pub cpu_proc : ℕ → Option ℕ
  pub next_pid : ℕ
  pub kernel_pagetable : ℕ
  pub satp : ℕ → ℕ

-- `procinit`
unfoldable pub procinit : Kernel → Kernel
procinit k = record k {
  proctable = λ i. if ltb i nproc then record (k.proctable i) { state = unused } else k.proctable i;
}

-- the first unused slot
unfoldable pub free_slot : Kernel → Option ℕ
free_slot k = first_slot (λ i. same_state (k.proctable i).state unused) nproc 0

abbrev pub set_proc : ℕ → Proc → Kernel → Kernel
set_proc i p k = record k { proctable = update k.proctable i p }

-- `make_thread`: the slot, or none for 0
unfoldable pub make_thread : ℕ → List ℕ → Kernel → Option ℕ × Kernel
make_thread fn name k = elim (free_slot k) [
  | none ↦ (none, k)
  | some i ↦
      let p = k.proctable i in
      let (kstack, mem) = kalloc k.kmem in
      (
        some i,
        set_proc i
            (record p {
              fn = fn;
              counter = 0;
              kstack = kstack;
              context = record { ra = thread_start; sp = kstack + pgsize };
              pagetable = k.kernel_pagetable;
              is_user = false;
              name = copy_name 7 name p.name;
              state = runnable;
            })
            (record k { kmem = mem }),
      )
]

-- `for (; name[j] && j < 6; j++) ...; name[j++] = '+'; name[j] = 0;`
unfoldable pub child_name : ℕ → List ℕ → List ℕ → List ℕ
child_name n name [] = []
child_name n name (x ∷ []) = b'+' ∷ []
child_name zero name (x ∷ y ∷ old) = b'+' ∷ 0 ∷ old
child_name (suc n) [] (x ∷ y ∷ old) = b'+' ∷ 0 ∷ old
child_name (suc n) (c ∷ name) (x ∷ y ∷ old) =
    let rest = child_name n name (y ∷ old) in if c == 0 then b'+' ∷ 0 ∷ old else c ∷ rest

-- the memory for a child of `parent`, whose trap frame is at `f`: its stack, its page table, the heap
-- that it shares, and its copy of the frame, which returns 0 after the call
unfoldable pub fork_memory : ℕ → ℕ → Proc → Kmem → Option (ℕ × ℕ × Kmem)
fork_memory etext f parent m =
    let (ustack, m1) = kalloc m in
    let m2 = kref_inc parent.ucode (copy_page ustack parent.ustack m1) in
    do
      (pt, m3) ← proc_pagetable etext parent.ucode ustack m2
      let m4 = (uvm_cow_share parent.pagetable pt heapbase parent.heap_top m3).1
      let frame = ustack + (f - userstack)
      let sepc = (m4.mem (parent.ustack + (f - userstack) + 240) + 4) % 2 ^ 64
      some (ustack, pt, store (frame + 240) sepc (store (frame + 64) 0 m4))

-- the record of the child of the process `p`, in the slot of the record `q`
unfoldable pub child_of : ℕ → ℕ → ℕ → ℕ → ℕ → Proc → Proc → Proc
unfolding child_name
child_of p f ustack pt pid parent q = record q {
  ucode = parent.ucode;
  ustack = ustack;
  pagetable = pt;
  context = record { ra = forkret; sp = userstacktop };
  tf_va = f;
  is_user = true;
  counter = 0;
  fn = 0;
  kstack = 0;
  parent = some p;
  heap_top = parent.heap_top;
  mmap_base = 0;
  pid = pid;
  name = child_name 6 parent.name q.name;
  state = runnable;
}

-- `proc_fork` of the process in the slot `p`: the pid of the child, or none for -1. The outer none is the
-- endless loop of `kvmmap`.
unfoldable pub proc_fork : ℕ → ℕ → ℕ → Kernel → Option (Option ℕ × Kernel)
proc_fork etext p f k = elim (free_slot k) [
  | none ↦ some (none, k)
  | some i ↦ do
    (ustack, pt, m) ← fork_memory etext f (k.proctable p) k.kmem
    let q = child_of p f ustack pt k.next_pid (k.proctable p) (k.proctable i)
    some (some k.next_pid, set_proc i q (record k { kmem = m; next_pid = k.next_pid + 1 }))
]

-- `if (page) kfree(page);`
abbrev pub free_page : ℕ → Kmem → Kmem
free_page a m = if a == 0 then m else kfree a m

-- the end of the mapped file: its size rounded up to pages
abbrev pub mmap_end : Proc → ℕ
mmap_end p = p.mmap_base + (p.mmap_size + 4095) % 2 ^ 32 / 4096 * 4096

-- the memory of a process that goes away
unfoldable pub free_memory : Proc → Kmem → Kmem
free_memory p m =
    let m1 =
      if p.pagetable == 0
      then m
      else let m' = vm_free_range p.pagetable heapbase p.heap_top m in
        if p.mmap_base == 0 then m' else vm_free_range p.pagetable p.mmap_base (mmap_end p) m' in
    let m2 = free_page p.kstack (free_page p.ustack (free_page p.ucode m1)) in
    if p.pagetable == 0 then m2 else free_pagetable p.pagetable m2

-- `proc_freeimage` of the process in the slot `i`
unfoldable pub proc_freeimage : ℕ → Kernel → Kernel
proc_freeimage i k =
    let p = k.proctable i in
    set_proc i
      (record p {
        ucode = 0;
        ustack = 0;
        kstack = 0;
        pagetable = 0;
        heap_top = heapbase;
        mmap_base = 0;
      })
      (record k { kmem = free_memory p k.kmem })

-- `proc_sbrk` of the process in the slot `p`, for an int `n` given as its 32 bits: the break before
unfoldable pub proc_sbrk : ℕ → ℕ → Kernel → ℕ × Kernel
proc_sbrk p n k =
    let q = k.proctable p in
    if ltb 0 n && ltb n (2 ^ 31)
    then (q.heap_top, set_proc p (record q { heap_top = (q.heap_top + n) % 2 ^ 64 }) k)
    else (q.heap_top, k)

-- `wakeup`, in one slot and in all
unfoldable pub wake : Chan → Proc → Proc
wake c p =
    if same_state p.state sleeping && same_chan p.chan c then record p { state = runnable } else p

unfoldable pub wakeup : Chan → Kernel → Kernel
wakeup c k = record k {
  proctable = λ i. if ltb i nproc then wake c (k.proctable i) else k.proctable i;
}

-- `sleep` on the core `id`, up to `swtch`; the resumed process clears `chan`
unfoldable pub sleep : ℕ → Chan → Kernel → Kernel
sleep id c k = elim (k.cpu_proc id) [
  | none ↦ k
  | some p ↦ set_proc p (record (k.proctable p) { chan = c; state = sleeping }) k
]

unfoldable pub sleep_resumed : ℕ → Kernel → Kernel
sleep_resumed p k = set_proc p (record (k.proctable p) { chan = no_chan }) k

-- `yield` on the core `id`, up to `swtch`
unfoldable pub yield : ℕ → Kernel → Kernel
yield id k = elim (k.cpu_proc id) [
  | none ↦ k
  | some p ↦
      if same_state (k.proctable p).state running
      then set_proc p (record (k.proctable p) { state = runnable }) k
      else k
]

-- `scheduler` on the core `id`: what it does with the slot `i` before `swtch`, if it may run it, and what
-- it does when `swtch` returns
unfoldable pub dispatch : ℕ → ℕ → Kernel → Kernel
dispatch id i k =
    if same_state (k.proctable i).state runnable
    then record k {
      proctable = update k.proctable i (record (k.proctable i) { state = running });
      cpu_proc = update k.cpu_proc id (some i);
      satp = update k.satp id (satp_for (k.proctable i).pagetable);
    }
    else k

unfoldable pub switch_back : ℕ → Kernel → Kernel
switch_back id k = record k {
  cpu_proc = update k.cpu_proc id none;
  satp = update k.satp id (satp_for k.kernel_pagetable);
}

-- `proc_exit` of the process in the slot `p`, up to `swtch`
unfoldable pub proc_exit : ℕ → Kernel → Kernel
proc_exit p k =
    let woken : Kernel = elim (k.proctable p).parent [ none ↦ k | some q ↦ wakeup (on_proc q) k ] in
    set_proc p (record (woken.proctable p) { state = zombie }) woken

-- What one round of the loop of `proc_wait` comes to.
pub data Waited : Type 0 where
  reaped : ℕ → Waited
  no_children asleep : Waited

abbrev pub is_child : Kernel → ℕ → ℕ → Bool
is_child k p i = is_slot p (k.proctable i).parent

abbrev pub is_dead_child : Kernel → ℕ → ℕ → Bool
is_dead_child k p i = is_child k p i && same_state (k.proctable i).state zombie

-- the zombie in the slot `i` is cleared away
unfoldable pub reap : ℕ → Kernel → Kernel
reap i k =
    let k' = proc_freeimage i k in
    set_proc i (record (k'.proctable i) { parent = none; state = unused }) k'

-- One round of the loop of `proc_wait`, for the process in the slot `p` that runs on the core `id`. A round
-- that ends asleep is followed, once the process runs again, by `sleep_resumed` and another round.
unfoldable pub proc_wait : ℕ → ℕ → Kernel → Waited × Kernel
proc_wait id p k = elim (first_slot (is_dead_child k p) nproc 0) [
  | some i ↦ (reaped (k.proctable i).pid, reap i k)
  | none ↦ elim (first_slot (is_child k p) nproc 0) [
    | none ↦ (no_children, k)
    | some i ↦ (asleep, sleep id (on_proc p) k)
  ]
]
