-- ===== src/Vm/Tree/Data.antt =====
-- src/vm.c and src/kalloc.c: a page taken from the allocator for data leaves the tables as they are.
use kernel_hobby.Base.{
  ℕ, zero, suc, ◌+◌, ◌<◌, ◌≡◌, ◌≢◌, refl, sym, ◌∙◌, ap, true, false, List, ◌∷◌, arith, has, leb,
  ltb, ◌==◌, ◌&&◌, if◌then◌else◌, Bool-cases, inl, inr,
}
use kernel_hobby.Kalloc.{Kmem, pgsize, take_first}
use kernel_hobby.Kalloc.Heap.{IsPage, IsHeap}
use kernel_hobby.Kalloc.Laws.{take_first-Allocated}
use kernel_hobby.Vm.{bit, v_bit, pte2pa, px, walk, pgrounddown, uvm_cow_fault}
use kernel_hobby.Vm.Cow.{In, memory-IsHeap}
use kernel_hobby.Vm.Tree.{
  IsData, slot, slot_off, entry_for, address_for, entry_for-address_for, walk_from-address_for,
  px_lt,
}
use kernel_hobby.Vm.Tree.Maps.{HasRoot, translation}

-- the state after the first free page, `x`, was taken and filled
abbrev pub filled : (ℕ → ℕ) → ℕ → Kmem → Kmem
filled g x s = record s { mem = λ b. if leb x b && ltb b (x + pgsize) then g b else s.mem b }

pub filled-In : (g : ℕ → ℕ) (x b : ℕ) (s : Kmem) → In b x → (filled g x s).mem b ≡ g b
filled-In g x b s h = ground (arith, h)

filled_off : (g : ℕ → ℕ) (x b : ℕ) (s : Kmem) → ¬ In b x → (filled g x s).mem b ≡ s.mem b
filled_off g x b s h = ground (arith, h)

module _ (first last pt x : ℕ) (rest : List ℕ) (s : Kmem) (g : ℕ → ℕ)
    (h : HasRoot first last pt (x ∷ rest) s) where
  abbrev pub taken : Kmem
  taken = filled g x (take_first s)

  x-IsPage : IsPage first last x
  x-IsPage = h.tree.heap.pages x (ground arith)

  not_x : (q : ℕ) → h.level q < 3 → x ≢ q
  not_x q lt e = ground (arith, h.tree.used q lt, e)

  taken_off : (b : ℕ) → ¬ In b x → taken.mem b ≡ s.mem b
  unfolding take_first
  taken_off b off = filled_off g x b (take_first s) off

  taken_slot : (q i : ℕ) → h.level q < 3 → i < 512 → taken.mem (slot q i) ≡ s.mem (slot q i)
  taken_slot q i lt lt' =
      taken_off (slot q i)
        (slot_off q i x (h.tree.page q lt).3 x-IsPage.3 lt' (λ e. not_x q lt (sym e)))

  taken-IsHeap : IsHeap first last rest taken
  unfolding take_first
  taken-IsHeap =
      memory-IsHeap first last rest (take_first s) taken.mem
        (take_first-Allocated first last x rest s h.tree.heap).heap
        (λ y free.
          let was : has y (x ∷ rest) ≡ true = ground (arith, free) in
          let ne : x ≢ y = λ e. ground (arith, free, h.tree.heap.distinct.0, e) in
          let page = h.tree.heap.pages y was in
          taken_off y (λ b. omega (arith, page.3, x-IsPage.3)))

  pub taken-HasRoot : HasRoot first last pt rest taken
  taken-HasRoot = record {
    level = h.level;
    tree = record {
      heap = taken-IsHeap;
      page = h.tree.page;
      used = λ p lt. ground (arith, h.tree.used p lt);
      child = λ p l i e lt lt' valid.
          let same = taken_slot p i (omega arith) lt' in
          ap (λ v. h.level (pte2pa v)) same
          ∙ h.tree.child p l i e lt lt' (ap (bit v_bit) (sym same) ∙ valid);
      alone = λ p q l i j e f lt lt' lt'' valid valid' both.
          let same = taken_slot p i (omega arith) lt' in
          let same' = taken_slot q j (omega arith) lt'' in
          h.tree.alone p q l i j e f lt lt' lt'' (ap (bit v_bit) (sym same) ∙ valid)
            (ap (bit v_bit) (sym same') ∙ valid') (ap pte2pa (sym same) ∙ both ∙ ap pte2pa same');
    };
    root = h.root;
  }

  taken_entries :
      (l p va : ℕ) → h.level p ≡ l → l < 3 → entry_for l p va taken.mem ≡ entry_for l p va s.mem
  unfolding entry_for
  taken_entries zero p va e lt = taken_slot p (px 0 va) (omega arith) (px_lt 0 va)
  taken_entries (suc l) p va e lt =
      let same = taken_slot p (px (suc l) va) (omega arith) (px_lt (suc l) va) in
      rw same (elim (Bool-cases (bit v_bit (s.mem (slot p (px (suc l) va))))) [
        | inl valid ↦ rw valid (
            taken_entries l (pte2pa (s.mem (slot p (px (suc l) va)))) va
              (h.tree.child p l (px (suc l) va) e (omega arith) (px_lt (suc l) va) valid)
              (omega arith))
        | inr missing ↦ rw missing refl
      ])

  pub translation-taken : (va : ℕ) → translation pt taken va ≡ translation pt s va
  translation-taken va = taken_entries 2 pt va h.root (omega arith)

  -- It is a page of data now, and those there were hold what they held.
  pub taken-IsData : IsData taken-HasRoot.level rest x
  unfolding taken-HasRoot
  taken-IsData = (
    elim (Bool-cases (ltb (h.level x) 3)) [
      | inl table ↦ absurd (not_x x (ground arith) refl)
      | inr none_there ↦ ground arith
    ],
    h.tree.heap.distinct.0,
    x-IsPage.3,
  )

  pub taken_kept :
      (y : ℕ)
      → IsData h.level (x ∷ rest) y
      → IsData taken-HasRoot.level rest y × ((b : ℕ) → In b y → taken.mem b ≡ s.mem b)
  unfolding taken-HasRoot
  taken_kept y d =
      let ne : x ≢ y = λ e. ground (arith, d.1, e) in
      (
        (d.0, ground (arith, d.1), d.2),
        λ b inside. taken_off b (λ inside_x. ne (omega (arith, x-IsPage.3, d.2))),
      )

-- A page that is not mapped is not shared copy-on-write.
pub cow_unmapped :
    (first last pt va : ℕ) (free : List ℕ) (s : Kmem)
    → HasRoot first last pt free s
    → bit v_bit (translation pt s va) ≡ false
    → pgrounddown va ≡ va
    → uvm_cow_fault pt va s ≡ (false, s)
unfolding uvm_cow_fault
cow_unmapped first last pt va free s h unmapped page =
    let at = address_for 2 pt va s.mem in
    let found : (walk pt (pgrounddown va) false s).0 ≡ at =
      ap (λ a. (walk pt a false s).0) page ∙ ap (λ r. r.0) (walk_from-address_for 2 pt va s) in
    let entry =
      entry_for-address_for first last h.level free s h.tree 2 pt va h.root (omega arith) in
    elim (Bool-cases (at == 0)) [
      | inl none_there ↦ rw (found, none_there) refl
      | inr there ↦
          let invalid : bit v_bit (s.mem at) ≡ false =
            ap (bit v_bit) (sym (entry ∙ rw there refl)) ∙ unmapped in
          rw (found, there, invalid) refl
    ]
