-- ===== src/Proc/Fault/Tests.antt =====
-- Page faults of src/proc.c at a concrete process, in its heap and in a file that it mapped.
use kernel_hobby.Base.{ℕ, ◌≡◌, refl, ap, true, false, none, some, List, [], ◌∷◌, arith, replicate}
use kernel_hobby.Kalloc.{Kmem, kinit, pgroundup, phystop, take_first}
use kernel_hobby.Kalloc.Heap.{IsHeap}
use kernel_hobby.Kalloc.Init.{at_boot, kinit-IsHeap}
use kernel_hobby.Vm.{bit, v_bit, zero_page, perm_ru, perm_rwu}
use kernel_hobby.Vm.Tree.Maps.{HasRoot, translation}
use kernel_hobby.Vm.Tree.Root.{fresh-HasRoot, fresh-translation}
use kernel_hobby.Fs.State.{Fs}
use kernel_hobby.Proc.{Kernel}
use kernel_hobby.Proc.Table.{Proc, running, nowhere, no_chan}
use kernel_hobby.Proc.User.{proc_pagefault}
use kernel_hobby.Proc.Fault.{
  MapsFile, file_words, Resolved, heap_fault-Resolved, file_fault-Resolved,
}

-- four pages at the end of the memory, of which the first is an empty table
abbrev four : List ℕ
four = 0x87FFF000 ∷ 0x87FFE000 ∷ 0x87FFD000 ∷ 0x87FFC000 ∷ []

abbrev started : Kmem
started = kinit 0x87FFC000 (at_boot (λ a. 7))

started-IsHeap : IsHeap 0x87FFC000 phystop four started
unfolding pgroundup
started-IsHeap = kinit-IsHeap 0x87FFC000 (λ a. 7) (omega arith) (omega arith)

-- a user process with a heap of two pages, and a mapped file of 5000 bytes
abbrev process : Proc
process = record {
  state = running;
  context = record { ra = nowhere; sp = 0 };
  kstack = 0;
  fn = 0;
  counter = 0;
  name = replicate 8 0;
  pagetable = 0x87FFF000;
  is_user = true;
  pid = 1;
  ucode = 0;
  ustack = 0;
  chan = no_chan;
  parent = none;
  tf_va = 0;
  heap_top = 0x12000;
  mmap_base = 0x100000;
  mmap_start = 40;
  mmap_size = 5000;
}

abbrev kernel : Kernel
kernel = record {
  kmem = zero_page 0x87FFF000 (take_first started);
  proctable = λ i. process;
  cpu_proc = λ id. some 0;
  next_pid = 2;
  kernel_pagetable = 0;
  satp = λ id. 0;
}

abbrev files : Fs
files = record {
  disk = record { ready = true; image = λ b. replicate 512 b; history = [] };
  dir = [];
  nfiles = 0;
  mounted = true;
  next_free = 60;
  total_blocks = 64;
  used = λ b. false;
  log_blk = [];
  log_overflow = false;
}

table-HasRoot :
    HasRoot 0x87FFC000 phystop 0x87FFF000 (0x87FFE000 ∷ 0x87FFD000 ∷ 0x87FFC000 ∷ []) kernel.kmem
table-HasRoot =
    fresh-HasRoot 0x87FFC000 phystop 0x87FFF000 (0x87FFE000 ∷ 0x87FFD000 ∷ 0x87FFC000 ∷ []) started
      started-IsHeap

unmapped : (va : ℕ) → bit v_bit (translation 0x87FFF000 kernel.kmem va) ≡ false
unmapped va = ap (bit v_bit) (
    fresh-translation 0x87FFC000 phystop 0x87FFF000 (0x87FFE000 ∷ 0x87FFD000 ∷ 0x87FFC000 ∷ [])
      started started-IsHeap va)

heap_fault-Resolved_example :
    Resolved 0x87FFC000 phystop 0 0x87FFE000 0x11008
      (0x87FFD000 ∷ 0x87FFC000 ∷ [])
      true
      files
      kernel
      refl
      table-HasRoot
      (omega arith)
      (omega arith)
      (unmapped 0x11008)
      perm_rwu
      (λ b. 0)
      (proc_pagefault (some 0) 0x11008 true files kernel)
heap_fault-Resolved_example =
    heap_fault-Resolved 0x87FFC000 phystop 0 0x87FFE000 0x11008 (0x87FFD000 ∷ 0x87FFC000 ∷ []) true
      files kernel refl table-HasRoot (omega arith) (omega arith) (unmapped 0x11008) (omega arith)
      (omega arith)

process-MapsFile : MapsFile process
process-MapsFile = record {
  based = omega arith;
  aligned = omega arith;
  small = omega arith;
  blocks = omega arith;
}

file_fault-Resolved_example :
    Resolved 0x87FFC000 phystop 0 0x87FFE000 0x101010
      (0x87FFD000 ∷ 0x87FFC000 ∷ [])
      false
      files
      kernel
      refl
      table-HasRoot
      (omega arith)
      (omega arith)
      (unmapped 0x101010)
      perm_ru
      (file_words files kernel 0 0x101000 0x87FFE000)
      (proc_pagefault (some 0) 0x101010 false files kernel)
file_fault-Resolved_example =
    file_fault-Resolved 0x87FFC000 phystop 0 0x87FFE000 0x101010 (0x87FFD000 ∷ 0x87FFC000 ∷ [])
      false files kernel refl table-HasRoot (omega arith) (omega arith) (unmapped 0x101010)
      (omega arith) process-MapsFile (omega arith) (omega arith)
