-- ===== src/Vm/Tests.antt =====
-- A copy-on-write fault of src/vm.c on a concrete page table, and the theorems there.
use kernel_hobby.Base.{◌≡◌, refl, true, false, [], ◌∷◌, arith, if◌then◌else◌, ◌==◌, subst}
use kernel_hobby.Kalloc.{Kmem, refidx, phystop}
use kernel_hobby.Kalloc.Heap.{IsHeap}
use kernel_hobby.Vm.{walk, walk_from, px, uvm_cow_fault, pte2pa}
use kernel_hobby.Vm.Cow.{Shares, Copied, uvm_cow_fault-Copied}

-- Three tables map 0x10000 to the page 0x87FFF000, which two address spaces share; 0x87FFE000 is free.
abbrev shared : Kmem
shared = record {
  mem = λ a.
      if a == 0x80100000
      then 0x20040401
      else if a == 0x80101000
      then 0x20040801
      else if a == 0x80102080
      then 0x21FFFD13
      else 0;
  freelist = 0x87FFE000;
  freecnt = 1;
  refcnt = λ i. if i == 32767 then 2 else 0;
}

shared-IsHeap : IsHeap 0x87FFE000 phystop (0x87FFE000 ∷ []) shared
unfolding refidx
shared-IsHeap = record {
  chain = (refl, omega arith, refl);
  distinct = (refl, _);
  counted = refl;
  pages = λ q m. ground (arith, m);
  unshared = λ q m.
      let e : 0x87FFE000 ≡ q = ground (arith, m) in
      subst (λ x. shared.refcnt (refidx x) ≡ 0) e refl;
  no_leak = λ q a z. ground (arith, a, z);
}

entry_address : (walk 0x80100000 0x10008 false shared).0 ≡ 0x80102080
unfolding walk_from px pte2pa
entry_address = refl

shared-Shares : Shares 0x87FFE000 phystop 0x80102080 (0x87FFE000 ∷ []) shared
unfolding refidx pte2pa
shared-Shares = record {
  heap = shared-IsHeap;
  there = omega arith;
  valid = refl;
  marked = refl;
  page = omega arith;
  used = omega arith;
  outside = omega arith;
  apart = λ x m i. ground (arith, m, i);
}

uvm_cow_fault-Copied_example :
    ((uvm_cow_fault 0x80100000 0x10008 shared).0 ≡ true)
    × Copied 0x87FFE000 phystop 0x80102080 0x87FFE000 shared
        (uvm_cow_fault 0x80100000 0x10008 shared).1
unfolding walk_from px pte2pa
uvm_cow_fault-Copied_example =
    uvm_cow_fault-Copied 0x87FFE000 phystop 0x80100000 0x10008 0x87FFE000 [] shared shared-Shares
