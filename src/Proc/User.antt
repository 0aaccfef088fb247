-- ===== src/Proc/User.antt =====
-- src/proc.c: the functions that load a program or a file into the pages of a process: make_user_proc,
-- proc_exec, proc_mmap and proc_pagefault. What they print is left out.
use kernel_hobby.Base.{
  ◌≡◌, refl, inl, inr, arith, sym, ◌∙◌, Bool-cases, Option-cases, ℕ, ◌+◌, ◌-◌, ◌*◌, ◌/◌, ◌%◌, ◌^◌,
  Bool, true, false, not, ◌&&◌, Option, none, some, List, length, get_or, ltb, leb, ◌==◌,
  if◌then◌else◌, ◌>>=◌,
}
use kernel_hobby.Fs.State.{Fs}
use kernel_hobby.Fs.Read.{fs_read, fs_stat, fs_read_page}
use kernel_hobby.Fs.Change.{copy_name}
use kernel_hobby.Kalloc.{Kmem, pgsize, kalloc, kfree}
use kernel_hobby.Vm.{
  zero_page, heapbase, mmapbase, perm_ru, perm_rwu, proc_pagetable, remap_user_code, vm_free_range,
  uvm_map, uvm_cow_fault,
}
use kernel_hobby.Elf.{le_bytes, load_elf, read_ehdr}
use kernel_hobby.Proc.{Kernel, free_slot, set_proc, mmap_end, free_page}
use kernel_hobby.Proc.Table.{Proc, runnable, enter_user}

-- the bytes of the memory, and the words of a memory of bytes
abbrev pub bytes_of : (ℕ → ℕ) → ℕ → ℕ
bytes_of mem a = mem (a / 8 * 8) / 256 ^ (a % 8) % 256

abbrev pub words_of : (ℕ → ℕ) → ℕ → ℕ
words_of bytes a = le_bytes 8 bytes a

-- `load_elf` on the memory of the allocator
unfoldable pub load_code : (ℕ → ℕ) → ℕ → Kmem → Bool × Kmem
load_code img code m =
    let (ok, bytes) = load_elf img code (bytes_of m.mem) in (ok, record m { mem = words_of bytes })

-- `make_user_proc`, for the image `initcode`: the slot, or none for 0. The outer none is the endless loop of
-- `kvmmap`.
unfoldable pub make_user_proc : ℕ → (ℕ → ℕ) → List ℕ → Kernel → Option (Option ℕ × Kernel)
make_user_proc etext initcode name k = elim (free_slot k) [
  | none ↦ some (none, k)
  | some i ↦
      let (code, m1) = kalloc k.kmem in
      let (ok, m2) = load_code initcode code (zero_page code m1) in
      if not ok
      then some (none, record k { kmem = m2 })
      else let (ustack, m3) = kalloc m2 in
        do
          (pt, m4) ← proc_pagetable etext code ustack m3
          let (kstack, m5) = kalloc m4
          let p = k.proctable i
          some (
            some i,
            set_proc i
                (record p {
                  ucode = code;
                  ustack = ustack;
                  pagetable = pt;
                  is_user = true;
                  counter = 0;
                  fn = 0;
                  pid = k.next_pid;
                  heap_top = heapbase;
                  mmap_base = 0;
                  kstack = kstack;
                  context = record { ra = enter_user; sp = kstack + pgsize };
                  name = copy_name 7 name p.name;
                  state = runnable;
                })
                (record k { kmem = m5; next_pid = k.next_pid + 1 }),
          )
]

-- the memory of the old program goes away, and the new code is mapped
unfoldable pub exec_memory : ℕ → Proc → Kmem → Kmem
exec_memory newcode p m =
    let m1 = vm_free_range p.pagetable heapbase p.heap_top m in
    let m2 =
      if p.mmap_base == 0 then m1 else vm_free_range p.pagetable p.mmap_base (mmap_end p) m1 in
    free_page p.ucode (remap_user_code p.pagetable newcode m2)

-- `proc_exec` of the process in the slot `p`: the address at which the new program starts, or none for -1;
-- and the static buffer `elfbuf`, which keeps what the file does not cover. A size from 2 ^ 31 on comes back from
-- `fs_read` as a negative number.
unfoldable pub proc_exec : ℕ → List ℕ → Fs → (ℕ → ℕ) → Kernel → Option ℕ × (ℕ → ℕ) × Kernel
proc_exec p path fs elfbuf k = elim (fs_read fs path 32768) [
  | none ↦ (none, elfbuf, k)
  | some file ↦
      let img : ℕ → ℕ = λ a. if ltb a (length file) then get_or file a 0 else elfbuf a in
      let (newcode, m1) = kalloc k.kmem in
      let (ok, m2) = load_code img newcode (zero_page newcode m1) in
      if leb (2 ^ 31) (length file)
      then (none, img, k)
      else if not ok
      then (none, img, record k { kmem = kfree newcode m2 })
      else let q = k.proctable p in
        (
          some (read_ehdr img).entry,
          img,
          set_proc p (record q { heap_top = heapbase; mmap_base = 0; ucode = newcode })
              (record k { kmem = exec_memory newcode q m2 }),
        )
]

-- `proc_mmap` of the process in the slot `p`: the address, or none for -1
unfoldable pub proc_mmap : ℕ → List ℕ → Fs → Kernel → Option ℕ × Kernel
proc_mmap p path fs k = elim (fs_stat fs path) [
  | none ↦ (none, k)
  | some (start, size) ↦ (
    some mmapbase,
    set_proc p
        (record (k.proctable p) { mmap_base = mmapbase; mmap_start = start; mmap_size = size }) k,
  )
]

-- a page from the allocator, filled by `fill_page` and mapped at `a`; it goes back if it cannot be mapped
unfoldable pub fault_page : (ℕ → Kmem → Kmem) → ℕ → ℕ → ℕ → Kmem → Bool × Kmem
fault_page fill_page pt a perm m =
    let (page, m1) = kalloc m in
    if page == 0
    then (false, m1)
    else let (ok, m2) = uvm_map pt a page perm (fill_page page m1) in
      if ok then (true, m2) else (false, kfree page m2)

-- a page with the given bytes
abbrev pub byte_page : List ℕ → ℕ → Kmem → Kmem
byte_page bytes page m = record m {
  mem = λ x.
      if leb page x && ltb x (page + pgsize)
      then le_bytes 8 (λ a. get_or bytes a 0) (x - page)
      else m.mem x;
}

abbrev pub with_memory : Kernel → Bool × Kmem → Bool × Kernel
with_memory k r = (r.0, record k { kmem = r.1 })

-- `proc_pagefault` of the process `p`, if there is one: true for 1, false for 0
unfoldable pub proc_pagefault : Option ℕ → ℕ → Bool → Fs → Kernel → Bool × Kernel
proc_pagefault none va store fs k = (false, k)
proc_pagefault (some i) va store fs k =
    let p = k.proctable i in
    let a = va / pgsize * pgsize in
    let (copied, m) = uvm_cow_fault p.pagetable a k.kmem in
    let k1 = if store then record k { kmem = m } else k in
    let bytes = fs_read_page fs.disk p.mmap_start p.mmap_size ((a - p.mmap_base) % 2 ^ 32) in
    if not p.is_user
    then (false, k)
    else if store && copied
    then (true, k1)
    else if leb heapbase a && ltb a p.heap_top
    then with_memory k1 (fault_page zero_page p.pagetable a perm_rwu k1.kmem)
    else if not (p.mmap_base == 0) && leb p.mmap_base a && ltb a (mmap_end p)
    then with_memory k1 (fault_page (byte_page bytes) p.pagetable a perm_ru k1.kmem)
    else (false, k1)

-- A call of `proc_exec` that returns -1 leaves every process as it was: the old program goes on.
proc_exec_failed :
    (p : ℕ) (path : List ℕ) (fs : Fs) (elfbuf : ℕ → ℕ) (k : Kernel)
    → (proc_exec p path fs elfbuf k).0 ≡ none
    → (proc_exec p path fs elfbuf k).2.proctable ≡ k.proctable
unfolding proc_exec
proc_exec_failed p path fs elfbuf k h = elim (Option-cases (fs_read fs path 32768)) [
  | inl missing ↦ rw (proc_exec, missing) refl
  | inr (file, found) ↦
      let img : ℕ → ℕ = λ a. if ltb a (length file) then get_or file a 0 else elfbuf a in
      let new = kalloc k.kmem in
      elim (Bool-cases (load_code img new.0 (zero_page new.0 new.1)).0) [
        | inr bad ↦ elim (Bool-cases (leb (2 ^ 31) (length file))) [
          | inl negative ↦ rw (proc_exec, found, negative) refl
          | inr fits ↦ rw (proc_exec, found, fits, bad) refl
        ]
        | inl loaded ↦ elim (Bool-cases (leb (2 ^ 31) (length file))) [
          | inl negative ↦ rw (proc_exec, found, negative) refl
          | inr fits ↦
              let went : (proc_exec p path fs elfbuf k).0 ≡ some (read_ehdr img).entry =
                rw (proc_exec, found, fits, loaded) refl in
              absurd (ground (arith, sym went ∙ h))
        ]
      ]
]
