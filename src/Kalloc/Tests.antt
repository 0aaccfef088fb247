-- ===== src/Kalloc/Tests.antt =====
-- The allocator of src/kalloc.c on a memory of three pages, and its theorems there.
use kernel_hobby.Base.{ℕ, ◌≡◌, refl, List, [], ◌∷◌, arith, if◌then◌else◌, ◌==◌, subst}
use kernel_hobby.Kalloc.{Kmem, refidx, kfree, kinit, phystop}
use kernel_hobby.Kalloc.Heap.{IsHeap}
use kernel_hobby.Kalloc.Laws.{Counted, kfree-Counted}
use kernel_hobby.Kalloc.Init.{at_boot}

abbrev kernel_end : ℕ
kernel_end = 0x87FFC123

-- three pages are left: 0x87FFD000, 0x87FFE000 and 0x87FFF000
abbrev booted : Kmem
booted = kinit kernel_end (at_boot (λ a. 7))

abbrev three : List ℕ
three = 0x87FFF000 ∷ 0x87FFE000 ∷ 0x87FFD000 ∷ []

-- two pages, the last of them in use, by one owner
abbrev one_used : Kmem
one_used = record {
  mem = λ a. 0;
  freelist = 0x87FFE000;
  freecnt = 1;
  refcnt = λ i. if i == 32767 then 1 else 0;
}

one_used-IsHeap : IsHeap 0x87FFE000 phystop (0x87FFE000 ∷ []) one_used
unfolding refidx
one_used-IsHeap = record {
  chain = (refl, omega arith, refl);
  distinct = (refl, _);
  counted = refl;
  pages = λ q m. ground (arith, m);
  unshared = λ q m.
      let e : 0x87FFE000 ≡ q = ground (arith, m) in
      subst (λ x. one_used.refcnt (refidx x) ≡ 0) e refl;
  no_leak = λ q a z. ground (arith, a, z);
}

kfree-Counted_example : Counted 0x87FFE000 phystop 0x87FFF000 0 one_used (kfree 0x87FFF000 one_used)
unfolding refidx
kfree-Counted_example =
    kfree-Counted 0x87FFE000 phystop 0x87FFF000 (0x87FFE000 ∷ []) one_used one_used-IsHeap
      (omega arith) (omega arith)
