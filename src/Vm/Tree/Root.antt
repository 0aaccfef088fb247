-- ===== src/Vm/Tree/Root.antt =====
-- src/vm.c: a page of zeros is the tree that translates nothing.
use kernel_hobby.Base.{
  ℕ, ◌<◌, ◌≡◌, ◌≢◌, refl, subst, true, false, List, ◌∷◌, arith, has, ◌==◌, if◌then◌else◌,
}
use kernel_hobby.Kalloc.{Kmem, take_first}
use kernel_hobby.Kalloc.Heap.{IsPage, IsHeap}
use kernel_hobby.Kalloc.Laws.{take_first-Allocated}
use kernel_hobby.Vm.{px, zero_page}
use kernel_hobby.Vm.Cow.{In, memory-IsHeap}
use kernel_hobby.Vm.Tree.{slot, entry_for, px_lt}
use kernel_hobby.Vm.Tree.Maps.{HasRoot, translation}

zero_page-In : (x a : ℕ) (s : Kmem) → In a x → (zero_page x s).mem a ≡ 0
unfolding zero_page
zero_page-In x a s inside = ground (arith, inside)

zero_page_off : (x a : ℕ) (s : Kmem) → ¬ In a x → (zero_page x s).mem a ≡ s.mem a
unfolding zero_page
zero_page_off x a s off = ground (arith, off)

module _ (first last x : ℕ) (rest : List ℕ) (s : Kmem) (h : IsHeap first last (x ∷ rest) s) where
  abbrev root_only : ℕ → ℕ
  root_only q = if x == q then 2 else 3

  is_root : (q : ℕ) → root_only q < 3 → x ≡ q
  is_root q lt = ground arith

  abbrev fresh : Kmem
  fresh = zero_page x (take_first s)

  x-IsPage : IsPage first last x
  x-IsPage = h.pages x (ground arith)

  fresh_entry : (q i : ℕ) → root_only q < 3 → i < 512 → fresh.mem (slot q i) ≡ 0
  fresh_entry q i lt lt' =
      let e = is_root q lt in
      subst (λ y. fresh.mem (slot y i) ≡ 0) e
        (zero_page-In x (slot x i) (take_first s) (omega arith))

  fresh-IsHeap : IsHeap first last rest fresh
  unfolding zero_page take_first
  fresh-IsHeap =
      memory-IsHeap first last rest (take_first s) fresh.mem
        (take_first-Allocated first last x rest s h).heap
        (λ y free.
          let was : has y (x ∷ rest) ≡ true = ground (arith, free) in
          let ne : x ≢ y = λ e. ground (arith, free, h.distinct.0, e) in
          let page = h.pages y was in
          zero_page_off x y (take_first s) (λ b. omega (arith, page.3, x-IsPage.3)))

  pub fresh-HasRoot : HasRoot first last x rest fresh
  fresh-HasRoot = record {
    level = root_only;
    tree = record {
      heap = fresh-IsHeap;
      page = λ q lt. subst (IsPage first last) (is_root q lt) x-IsPage;
      used = λ q lt. subst (λ y. has y rest ≡ false) (is_root q lt) h.distinct.0;
      child = λ q l i e lt lt' valid.
          let z = fresh_entry q i (omega arith) lt' in absurd (ground (arith, z, valid));
      alone = λ q r l i j e f lt lt' lt'' valid valid' same.
          let z = fresh_entry q i (omega arith) lt' in absurd (ground (arith, z, valid));
    };
    root = ground arith;
  }

  pub fresh-translation : (va : ℕ) → translation x fresh va ≡ 0
  unfolding entry_for
  fresh-translation va = let z = fresh_entry x (px 2 va) (ground arith) (px_lt 2 va) in rw z refl
