-- ===== src/Vm/Tree/Leaf.antt =====
-- src/vm.c: a store to an entry of the lowest level of the tree.
use kernel_hobby.Base.{
  ℕ, zero, suc, ◌/◌, ◌%◌, ◌^◌, ◌≤◌, ◌<◌, ◌≡◌, ◌≢◌, refl, sym, ◌∙◌, ap, subst, true, false, List,
  arith, ◌==◌, if◌then◌else◌, Bool-cases, inl, inr, update, update_ne, ℕ_discrete,
}
use kernel_hobby.Kalloc.{Kmem}
use kernel_hobby.Kalloc.Heap.{IsHeap}
use kernel_hobby.Vm.{bit, v_bit, pte2pa, px, store}
use kernel_hobby.Vm.Cow.{memory-IsHeap}
use kernel_hobby.Vm.Tree.{IsTree, slot, slot-injective, entry_for, address_for, px_lt}

-- Two addresses in one page, as the 39 bits of Sv39 tell.
abbrev pub SamePage : ℕ → ℕ → Type 0
SamePage a b = a / 4096 % 2 ^ 27 ≡ b / 4096 % 2 ^ 27

pub px-SamePage : (a b : ℕ) → px 0 a ≡ px 0 b → px 1 a ≡ px 1 b → px 2 a ≡ px 2 b → SamePage a b
unfolding px
px-SamePage a b e f g = omega arith

pub SamePage-px :
    (a b : ℕ) → SamePage a b → (px 0 a ≡ px 0 b) × (px 1 a ≡ px 1 b) × (px 2 a ≡ px 2 b)
unfolding px
SamePage-px a b e = (omega arith, omega arith, omega arith)

module _ (first last : ℕ) (level : ℕ → ℕ) (free : List ℕ) (s : Kmem)
    (tree : IsTree first last level free s) where
  aligned_at : (q : ℕ) → level q < 3 → q % 4096 ≡ 0
  aligned_at q h = (tree.page q h).3

  -- An address that is found lies in a table of the lowest level.
  pub leaf_of :
      (l p va : ℕ)
      → level p ≡ l
      → l < 3
      → address_for l p va s.mem ≢ 0
      → (q : ℕ) × (level q ≡ 0) × (address_for l p va s.mem ≡ slot q (px 0 va))
  unfolding address_for
  leaf_of zero p va at lt ne = (p, at, refl)
  leaf_of (suc l) p va at lt ne = elim (Bool-cases (bit v_bit (s.mem (slot p (px (suc l) va))))) [
    | inl valid ↦
        let c = pte2pa (s.mem (slot p (px (suc l) va))) in
        let (q, e, f) =
          leaf_of l c va (tree.child p l (px (suc l) va) at (omega arith) (px_lt (suc l) va) valid)
            (omega arith) (λ e. ne (rw valid e)) in
        (q, e, rw valid f)
    | inr missing ↦ absurd (ne (rw missing refl))
  ]

  -- An address that is found is found behind a valid entry.
  behind :
      (l p va : ℕ)
      → address_for (suc l) p va s.mem ≢ 0
      → (bit v_bit (s.mem (slot p (px (suc l) va))) ≡ true)
        × (address_for (suc l) p va s.mem
            ≡ address_for l (pte2pa (s.mem (slot p (px (suc l) va)))) va s.mem)
  unfolding address_for
  behind l p va ne = elim (Bool-cases (bit v_bit (s.mem (slot p (px (suc l) va))))) [
    | inl valid ↦ (valid, rw valid refl)
    | inr missing ↦ absurd (ne (rw missing refl))
  ]

  -- Two ways to one address are one way.
  pub one_way :
      (l p q a b : ℕ)
      → level p ≡ l
      → level q ≡ l
      → l < 3
      → address_for l p a s.mem ≢ 0
      → address_for l p a s.mem ≡ address_for l q b s.mem
      → (p ≡ q) × ((k : ℕ) → k ≤ l → px k a ≡ px k b)
  unfolding address_for
  one_way zero p q a b at at' lt ne e =
      let (same, i) =
        slot-injective p q (px 0 a) (px 0 b) (aligned_at p (omega arith))
          (aligned_at q (omega arith)) (px_lt 0 a) (px_lt 0 b) e in
      (same, λ k h. let z : 0 ≡ k = omega arith in subst (λ k. px k a ≡ px k b) z i)
  one_way (suc l) p q a b at at' lt ne e =
      let i = px (suc l) a in
      let j = px (suc l) b in
      let (valid, f) = behind l p a ne in
      let (valid', f') = behind l q b (λ z. ne (e ∙ z)) in
      let (same, below) =
        one_way l (pte2pa (s.mem (slot p i))) (pte2pa (s.mem (slot q j))) a b
          (tree.child p l i at (omega arith) (px_lt (suc l) a) valid)
          (tree.child q l j at' (omega arith) (px_lt (suc l) b) valid') (omega arith)
          (λ z. ne (f ∙ z)) (sym f ∙ e ∙ f') in
      let (here, top) =
        tree.alone p q l i j at at' (omega arith) (px_lt (suc l) a) (px_lt (suc l) b) valid valid'
          same in
      (
        here,
        λ k h. elim (ℕ_discrete k (suc l)) [
          | yes z ↦ subst (λ k. px k a ≡ px k b) (sym z) top
          | no z ↦ below k (omega arith)
        ],
      )

  -- The words that a store to an entry of the lowest level leaves alone.
  module _ (q i v : ℕ) (at : level q ≡ 0) (inside : i < 512) where
    upper_kept :
        (p j : ℕ)
        → 0 < level p
        → level p < 3
        → j < 512
        → (store (slot q i) v s).mem (slot p j) ≡ s.mem (slot p j)
    upper_kept p j h k lt = update_ne s.mem (slot q i) (slot p j) v (λ e. omega (
      arith,
      ap level (slot-injective q p i j (aligned_at q (omega arith)) (aligned_at p k) inside lt e).0,
    ))

    store-IsHeap : IsHeap first last free (store (slot q i) v s)
    store-IsHeap = memory-IsHeap first last free s (update s.mem (slot q i) v) tree.heap (λ y h.
        update_ne s.mem (slot q i) y v (λ e. ground (
          arith,
          tree.used q (omega arith),
          h,
          (slot-injective q y i 0 (aligned_at q (omega arith)) (tree.heap.pages y h).3 inside
              (omega arith) (e ∙ omega arith)).0,
        )))

    pub store-IsTree : IsTree first last level free (store (slot q i) v s)
    store-IsTree = record {
      heap = store-IsHeap;
      page = tree.page;
      used = tree.used;
      child = λ p l j e lt lt' valid.
          let same = upper_kept p j (omega arith) (omega arith) lt' in
          rw same (tree.child p l j e lt lt' (ap (bit v_bit) (sym same) ∙ valid));
      alone = λ p r l j k e f lt lt' lt'' valid valid' g.
          let same = upper_kept p j (omega arith) (omega arith) lt' in
          let same' = upper_kept r k (omega arith) (omega arith) lt'' in
          tree.alone p r l j k e f lt lt' lt'' (ap (bit v_bit) (sym same) ∙ valid)
            (ap (bit v_bit) (sym same') ∙ valid') (ap pte2pa (sym same) ∙ g ∙ ap pte2pa same');
    }

    -- The ways stay, and the entry that was stored is found where its address is.
    pub entry_for-store :
        (l p va : ℕ)
        → level p ≡ l
        → l < 3
        → entry_for l p va (store (slot q i) v s).mem
          ≡ (if address_for l p va s.mem == slot q i then v else entry_for l p va s.mem)
    unfolding entry_for address_for
    entry_for-store zero p va e lt = ground arith
    entry_for-store (suc l) p va e lt =
        let same = upper_kept p (px (suc l) va) (omega arith) (omega arith) (px_lt (suc l) va) in
        rw same (elim (Bool-cases (bit v_bit (s.mem (slot p (px (suc l) va))))) [
          | inl valid ↦ rw valid (
              entry_for-store l (pte2pa (s.mem (slot p (px (suc l) va)))) va
                (tree.child p l (px (suc l) va) e (omega arith) (px_lt (suc l) va) valid)
                (omega arith))
          | inr missing ↦
              let other : (0 == slot q i) ≡ false =
                ground (arith, (tree.page q (omega arith)).0, (tree.page q (omega arith)).2) in
              rw (missing, other) refl
        ])

    pub address_for-store :
        (l p va : ℕ)
        → level p ≡ l
        → l < 3
        → address_for l p va (store (slot q i) v s).mem ≡ address_for l p va s.mem
    unfolding address_for
    address_for-store zero p va e lt = refl
    address_for-store (suc l) p va e lt =
        let same = upper_kept p (px (suc l) va) (omega arith) (omega arith) (px_lt (suc l) va) in
        rw same (elim (Bool-cases (bit v_bit (s.mem (slot p (px (suc l) va))))) [
          | inl valid ↦ rw valid (
              address_for-store l (pte2pa (s.mem (slot p (px (suc l) va)))) va
                (tree.child p l (px (suc l) va) e (omega arith) (px_lt (suc l) va) valid)
                (omega arith))
          | inr missing ↦ rw missing refl
        ])

  -- The tables for one page serve the other pages of its 2 MiB.
  pub same_tables :
      (p a b : ℕ)
      → level p ≡ 2
      → px 1 a ≡ px 1 b
      → px 2 a ≡ px 2 b
      → address_for 2 p a s.mem ≢ 0
      → address_for 2 p b s.mem ≢ 0
  unfolding address_for
  same_tables p a b at e1 e2 ne =
      let (valid, f) = behind 1 p a ne in
      let d = pte2pa (s.mem (slot p (px 2 a))) in
      let (valid', f') = behind 0 d a (λ z. ne (f ∙ z)) in
      let c = pte2pa (s.mem (slot d (px 1 a))) in
      let level_d = tree.child p 1 (px 2 a) at (omega arith) (px_lt 2 a) valid in
      let level_c = tree.child d 0 (px 1 a) level_d (omega arith) (px_lt 1 a) valid' in
      let there : address_for 2 p b s.mem ≡ slot c (px 0 b) =
        rw (sym e2, sym e1, valid, valid') refl in
      λ z. omega (arith, there, z, (tree.page c (omega arith)).0, (tree.page c (omega arith)).2)
