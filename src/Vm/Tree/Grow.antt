-- ===== src/Vm/Tree/Grow.antt =====
-- src/vm.c: a new table in the tree.
use kernel_hobby.Base.{
  ℕ, zero, suc, ◌+◌, ◌%◌, ◌≤◌, ◌<◌, ◌≡◌, ◌≢◌, refl, sym, ◌∙◌, ap, subst, true, false, List, ◌∷◌,
  arith, has, ◌&&◌, leb, ltb, Bool-cases, ◌⊎◌, inl, inr, update, update_self, update_ne, ℕ_discrete,
}
use kernel_hobby.Kalloc.{Kmem, pgsize, take_first}
use kernel_hobby.Kalloc.Heap.{IsPage, IsHeap}
use kernel_hobby.Kalloc.Laws.{take_first-Allocated}
use kernel_hobby.Vm.{bit, v_bit, pte2pa, pa2pte, px, store, zero_page}
use kernel_hobby.Vm.Pte.{pte_lem}
use kernel_hobby.Vm.Cow.{In, memory-IsHeap}
use kernel_hobby.Vm.Tree.{IsTree, slot, slot-injective, slot_off, entry_for, px_lt}

-- the state after the first free page, `x`, became the table behind the entry at `a`
abbrev pub linked : ℕ → ℕ → Kmem → Kmem
linked x a s = store a (pa2pte x + 1) (zero_page x (take_first s))

take_first_mem : (s : Kmem) → (take_first s).mem ≡ s.mem
unfolding take_first
take_first_mem s = refl

linked-In : (x a b : ℕ) (s : Kmem) → a ≢ b → In b x → (linked x a s).mem b ≡ 0
unfolding zero_page
linked-In x a b s ne inside =
    let here : (leb x b && ltb b (x + pgsize)) ≡ true = ground (arith, inside) in
    update_ne (zero_page x (take_first s)).mem a b _ ne ∙ rw here refl

linked_off : (x a b : ℕ) (s : Kmem) → a ≢ b → ¬ In b x → (linked x a s).mem b ≡ s.mem b
unfolding zero_page
linked_off x a b s ne off =
    let out : (leb x b && ltb b (x + pgsize)) ≡ false = ground (arith, off) in
    update_ne (zero_page x (take_first s)).mem a b _ ne ∙ rw (out, take_first_mem) refl

module _ (first last x : ℕ) (level : ℕ → ℕ) (rest : List ℕ) (s : Kmem)
    (tree : IsTree first last level (x ∷ rest) s) (p l i : ℕ) (at : level p ≡ suc l) (small : l < 2)
    (inside : i < 512) (missing : bit v_bit (s.mem (slot p i)) ≡ false) where
  abbrev pub t : Kmem
  t = linked x (slot p i) s

  abbrev pub level' : ℕ → ℕ
  level' = update level x l

  x_free : has x (x ∷ rest) ≡ true
  x_free = ground arith

  x-IsPage : IsPage first last x
  x-IsPage = tree.heap.pages x x_free

  -- a free page is no table
  pub not_x : (q : ℕ) → level q < 3 → x ≢ q
  not_x q h e = ground (arith, tree.used q h, x_free)

  aligned_at : (q : ℕ) → level q < 3 → q % 4096 ≡ 0
  aligned_at q h = (tree.page q h).3

  -- the entry that was written, the entries of the new table, and all others
  pub mem_new : t.mem (slot p i) ≡ pa2pte x + 1
  mem_new = update_self (zero_page x (take_first s)).mem (slot p i) _

  mem_zero : (j : ℕ) → j < 512 → t.mem (slot x j) ≡ 0
  mem_zero j lt =
      linked-In x (slot p i) (slot x j) s
        (λ e.
          not_x p (omega arith)
            (sym (slot-injective p x i j (aligned_at p (omega arith)) x-IsPage.3 inside lt e).0))
        (omega arith)

  pub mem_other :
      (q j : ℕ)
      → level q < 3
      → j < 512
      → ¬ ((p ≡ q) × (i ≡ j))
      → t.mem (slot q j) ≡ s.mem (slot q j)
  mem_other q j h lt ne =
      linked_off x (slot p i) (slot q j) s
        (λ e. ne (slot-injective p q i j (aligned_at p (omega arith)) (aligned_at q h) inside lt e))
        (slot_off q j x (aligned_at q h) x-IsPage.3 lt (λ e. not_x q h (sym e)))

  -- a page of data
  pub mem_data : (y b : ℕ) → x ≢ y → 3 ≤ level y → y % 4096 ≡ 0 → In b y → t.mem b ≡ s.mem b
  mem_data y b ne data_page aligned inside_y =
      linked_off x (slot p i) b s
        (λ e.
          let same : p ≡ y = omega (arith, aligned_at p (omega arith)) in
          absurd (omega (arith, ap level same)))
        (λ inside_x. ne (omega (arith, x-IsPage.3)))

  pub new_entry : (pte2pa (pa2pte x + 1) ≡ x) × (bit v_bit (pa2pte x + 1) ≡ true)
  unfolding pa2pte
  new_entry = (
    unfold pa2pte in
        (pte_lem x 1 x-IsPage.3 (omega (arith, x-IsPage.1, x-IsPage.4)) (omega arith)).0,
    ground arith,
  )

  pub level'_x : level' x ≡ l
  level'_x = update_self level x l

  pub level'_other : (q : ℕ) → x ≢ q → level' q ≡ level q
  level'_other q ne = update_ne level x q l ne

  -- A valid entry of the new tree is the one that was written, or one of the old tree.
  abbrev Old : ℕ → ℕ → ℕ → Type 0
  Old q m j =
      (level q ≡ suc m)
      × (bit v_bit (s.mem (slot q j)) ≡ true)
      × (t.mem (slot q j) ≡ s.mem (slot q j))

  valid_entry :
      (q m j : ℕ)
      → level' q ≡ suc m
      → m < 2
      → j < 512
      → bit v_bit (t.mem (slot q j)) ≡ true
      → ((p ≡ q) × (i ≡ j)) ⊎ Old q m j
  valid_entry q m j e lt lt' valid = elim (ℕ_discrete x q) [
    | yes same ↦
        let zero_there : t.mem (slot q j) ≡ 0 =
          subst (λ y. t.mem (slot y j) ≡ 0) same (mem_zero j lt') in
        absurd (ground (arith, zero_there, valid))
    | no other ↦
        let old : level q ≡ suc m = sym (level'_other q other) ∙ e in
        elim (ℕ_discrete p q) [
          | yes here ↦ elim (ℕ_discrete i j) [
            | yes same ↦ inl (here, same)
            | no ne ↦
                let m_same = mem_other q j (omega arith) lt' (λ b. ne b.1) in
                inr (old, ap (bit v_bit) (sym m_same) ∙ valid, m_same)
          ]
          | no ne ↦
              let m_same = mem_other q j (omega arith) lt' (λ b. ne b.0) in
              inr (old, ap (bit v_bit) (sym m_same) ∙ valid, m_same)
        ]
  ]

  child_of_new : (q j : ℕ) → p ≡ q → i ≡ j → pte2pa (t.mem (slot q j)) ≡ x
  child_of_new q j a b =
      ap pte2pa (ap t.mem (ap (λ y. slot y j) (sym a) ∙ ap (slot p) (sym b)) ∙ mem_new)
      ∙ new_entry.0

  child_kept : (q m j : ℕ) → m < 2 → j < 512 → Old q m j → level (pte2pa (t.mem (slot q j))) ≡ m
  child_kept q m j lt lt' old =
      ap (λ e. level (pte2pa e)) old.2 ∙ tree.child q m j old.0 lt lt' old.1

  linked-IsHeap : IsHeap first last rest t
  unfolding zero_page take_first
  linked-IsHeap =
      memory-IsHeap first last rest (take_first s) t.mem
        (take_first-Allocated first last x rest s tree.heap).heap
        (λ y free.
          let was : has y (x ∷ rest) ≡ true = ground (arith, free) in
          let ne : x ≢ y = λ e. ground (arith, free, tree.heap.distinct.0, e) in
          let page = tree.heap.pages y was in
          linked_off x (slot p i) y s
            (λ e. ground (
              arith,
              tree.used p (omega arith),
              was,
              (slot-injective p y i 0 (aligned_at p (omega arith)) page.3 inside (omega arith)
                  (e ∙ omega arith)).0,
            ))
            (λ b. omega (arith, page.3, x-IsPage.3))
          ∙ sym (ap (λ m. m y) (take_first_mem s)))

  pub linked-IsTree : IsTree first last level' rest t
  linked-IsTree = record {
    heap = linked-IsHeap;
    page = λ q h. elim (ℕ_discrete x q) [
      | yes same ↦ subst (IsPage first last) same x-IsPage
      | no other ↦ tree.page q (omega (arith, level'_other q other))
    ];
    used = λ q h. elim (ℕ_discrete x q) [
      | yes same ↦ subst (λ y. has y rest ≡ false) same tree.heap.distinct.0
      | no other ↦ ground (arith, tree.used q (omega (arith, level'_other q other)))
    ];
    child = λ q m j e lt lt' valid. elim (valid_entry q m j e lt lt' valid) [
      | inl (a, b) ↦
          ap level' (child_of_new q j a b)
          ∙ level'_x
          ∙ omega (arith, level'_other p (not_x p (omega arith)), at, ap level' a, e)
      | inr old ↦
          level'_other (pte2pa (t.mem (slot q j)))
            (not_x (pte2pa (t.mem (slot q j))) (omega (arith, child_kept q m j lt lt' old)))
          ∙ child_kept q m j lt lt' old
    ];
    alone = λ q r m j k e f lt lt' lt'' valid valid' same. elim (valid_entry q m j e lt lt' valid) [
      | inl (a, b) ↦ elim (valid_entry r m k f lt lt'' valid') [
        | inl (c, d) ↦ (sym a ∙ c, sym b ∙ d)
        | inr old ↦ absurd (
            not_x (pte2pa (t.mem (slot r k))) (omega (arith, child_kept r m k lt lt'' old))
              (sym (child_of_new q j a b) ∙ same))
      ]
      | inr old ↦ elim (valid_entry r m k f lt lt'' valid') [
        | inl (c, d) ↦ absurd (
            not_x (pte2pa (t.mem (slot q j))) (omega (arith, child_kept q m j lt lt' old))
              (sym (child_of_new r k c d) ∙ sym same))
        | inr old' ↦
            tree.alone q r m j k old.0 old'.0 lt lt' lt'' old.1 old'.1
              (ap pte2pa (sym old.2) ∙ same ∙ ap pte2pa old'.2)
      ]
    ];
  }

  -- The new table is empty, so that no entry is found there.
  entry_for-x : (m va : ℕ) → entry_for m x va t.mem ≡ 0
  unfolding entry_for
  entry_for-x zero va = mem_zero (px 0 va) (px_lt 0 va)
  entry_for-x (suc m) va = rw (mem_zero (px (suc m) va) (px_lt (suc m) va)) refl

  unchanged :
      (m q va : ℕ)
      → level q ≡ suc m
      → suc m < 3
      → ((c : ℕ) → level c ≡ m → entry_for m c va t.mem ≡ entry_for m c va s.mem)
      → ¬ ((p ≡ q) × (i ≡ px (suc m) va))
      → entry_for (suc m) q va t.mem ≡ entry_for (suc m) q va s.mem
  unfolding entry_for
  unchanged m q va e lt ih ne =
      let j = px (suc m) va in
      let same = mem_other q j (omega arith) (px_lt (suc m) va) ne in
      rw same (elim (Bool-cases (bit v_bit (s.mem (slot q j)))) [
        | inl valid ↦ rw valid (
            ih (pte2pa (s.mem (slot q j)))
              (tree.child q m j e (omega arith) (px_lt (suc m) va) valid))
        | inr none_there ↦ rw none_there refl
      ])

  -- The entries that are found in the old tables stay the same.
  pub entry_for-linked :
      (m q va : ℕ) → level q ≡ m → m < 3 → entry_for m q va t.mem ≡ entry_for m q va s.mem
  unfolding entry_for
  entry_for-linked zero q va e lt =
      mem_other q (px 0 va) (omega arith) (px_lt 0 va) (λ b. omega (arith, ap level b.0))
  entry_for-linked (suc m) q va e lt = elim (ℕ_discrete p q) [
    | yes here ↦ elim (ℕ_discrete i (px (suc m) va)) [
      | yes same ↦
          let depth : l ≡ m = omega (arith, ap level here) in
          let new : t.mem (slot q (px (suc m) va)) ≡ pa2pte x + 1 =
            subst (λ y. t.mem (slot y (px (suc m) va)) ≡ pa2pte x + 1) here
              (subst (λ j. t.mem (slot p j) ≡ pa2pte x + 1) same mem_new) in
          let was : bit v_bit (s.mem (slot q (px (suc m) va))) ≡ false =
            subst (λ y. bit v_bit (s.mem (slot y (px (suc m) va))) ≡ false) here
              (subst (λ j. bit v_bit (s.mem (slot p j)) ≡ false) same missing) in
          rw (new, new_entry.0, new_entry.1, entry_for-x m va, was) refl
      | no ne ↦ unchanged m q va e lt (λ c h. entry_for-linked m c va h (omega arith)) (λ b. ne b.1)
    ]
    | no ne ↦ unchanged m q va e lt (λ c h. entry_for-linked m c va h (omega arith)) (λ b. ne b.0)
  ]
