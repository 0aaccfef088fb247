-- ===== src/Vm/Tree/Maps.antt =====
-- src/vm.c: mappages enters a range of pages into the tree, and changes no other translation.
use kernel_hobby.Base.{
  ℕ, ◌+◌, ◌≡◌, ◌≢◌, refl, sym, ◌∙◌, ap, subst, true, false, List, arith, ◌==◌, if◌then◌else◌,
  Bool-cases, inl, inr, ==_iff, update_ne,
}
use kernel_hobby.Kalloc.{Kmem}
use kernel_hobby.Vm.{v_bit, with_bit, pa2pte, px, store, walk_from}
use kernel_hobby.Vm.Tree.{
  IsTree, IsData, Kept, slot, entry_for, address_for, entry_for-address_for, px_lt,
}
use kernel_hobby.Vm.Tree.Paths.{Walked, walk_from-Walked}
use kernel_hobby.Vm.Tree.Leaf.{
  SamePage, px-SamePage, SamePage-px, leaf_of, one_way, store-IsTree, entry_for-store,
  address_for-store,
}

-- the entry that translates `va` in the table `pt`
abbrev pub translation : ℕ → Kmem → ℕ → ℕ
translation pt s va = entry_for 2 pt va s.mem

-- The translation is that of the page.
pub translation-SamePage :
    (pt : ℕ) (s : Kmem) (a b : ℕ) → SamePage a b → translation pt s a ≡ translation pt s b
unfolding entry_for
translation-SamePage pt s a b e = let (e0, e1, e2) = SamePage-px a b e in rw (e0, e1, e2) refl

-- the entry that `mappages` makes
abbrev pub entry_of : ℕ → ℕ → ℕ
entry_of pa perm = with_bit v_bit (pa2pte pa + perm)

-- a tree with the root `pt`, whose free pages are `free`
pub record HasRoot (first last pt : ℕ) (free : List ℕ) (s : Kmem) : Type 0 where
  pub level : ℕ → ℕ
  pub tree : IsTree first last level free s
  pub root : level pt ≡ 2

-- `walk` with the tree that it leaves
module _ (first last pt a : ℕ) (free : List ℕ) (s : Kmem) (h : HasRoot first last pt free s) where
  abbrev pub walked : ℕ × Kmem
  walked = walk_from 2 pt a true s

  pub walked-Walked : Walked first last 2 pt a h.level free s walked
  walked-Walked = walk_from-Walked first last a 2 pt h.level free s h.tree h.root (omega arith)

  abbrev pub pte : ℕ
  pte = walked.0

  abbrev pub t : Kmem
  t = walked.1

  level_now : walked-Walked.level' pt ≡ 2
  level_now = walked-Walked.tables pt (omega (arith, h.root)) ∙ h.root

  pub walked-HasRoot : HasRoot first last pt walked-Walked.free' t
  walked-HasRoot = record {
    level = walked-Walked.level';
    tree = walked-Walked.tree;
    root = level_now;
  }

  pub walked_entries : (va : ℕ) → translation pt t va ≡ translation pt s va
  walked_entries va = walked-Walked.entries 2 pt va h.root (omega arith)

  -- what memory holds at the address
  pub at_pte : pte ≢ 0 → t.mem pte ≡ translation pt s a
  at_pte ne =
      let found = walked-Walked.found ne in
      let there : (address_for 2 pt a t.mem == 0) ≡ false = ground (arith, found) in
      sym (ap t.mem found)
      ∙ sym (
          entry_for-address_for first last walked-Walked.level' walked-Walked.free' t
            walked-Walked.tree 2 pt a level_now (omega arith)
          ∙ rw there refl)
      ∙ walked_entries a

  module _ (ne : pte ≢ 0) (v : ℕ) where
    leaf : (q : ℕ) × (walked-Walked.level' q ≡ 0) × (address_for 2 pt a t.mem ≡ slot q (px 0 a))
    leaf =
        leaf_of first last walked-Walked.level' walked-Walked.free' t walked-Walked.tree 2 pt a
          level_now (omega arith) (λ z. ne (sym (walked-Walked.found ne) ∙ z))

    pte_slot : pte ≡ slot leaf.0 (px 0 a)
    pte_slot = sym (walked-Walked.found ne) ∙ leaf.2

    pub stored-HasRoot : HasRoot first last pt walked-Walked.free' (store pte v t)
    stored-HasRoot = record {
      level = walked-Walked.level';
      tree =
          subst (λ e. IsTree first last walked-Walked.level' walked-Walked.free' (store e v t))
            (sym pte_slot)
            (store-IsTree first last walked-Walked.level' walked-Walked.free' t walked-Walked.tree
              leaf.0 (px 0 a) v leaf.1 (px_lt 0 a));
      root = level_now;
    }

    stored_entry :
        (va : ℕ)
        → translation pt (store pte v t) va
          ≡ (if address_for 2 pt va t.mem == pte then v else translation pt t va)
    stored_entry va =
        subst
          (λ e.
            translation pt (store e v t) va
            ≡ (if address_for 2 pt va t.mem == e then v else translation pt t va))
          (sym pte_slot)
          (entry_for-store first last walked-Walked.level' walked-Walked.free' t walked-Walked.tree
            leaf.0 (px 0 a) v leaf.1 (px_lt 0 a) 2 pt va level_now (omega arith))

    pub stored_here : translation pt (store pte v t) a ≡ v
    stored_here =
        let here : (address_for 2 pt a t.mem == pte) ≡ true =
          ground (arith, walked-Walked.found ne) in
        stored_entry a ∙ rw here refl

    pub stored_other :
        (va : ℕ) → ¬ SamePage a va → translation pt (store pte v t) va ≡ translation pt s va
    stored_other va other =
        let apart : (address_for 2 pt va t.mem == pte) ≡ false =
          elim (Bool-cases (address_for 2 pt va t.mem == pte)) [
            | inr z ↦ z
            | inl same ↦
                let e : address_for 2 pt va t.mem ≡ pte =
                  (==_iff (address_for 2 pt va t.mem) pte).0 same in
                let way =
                  one_way first last walked-Walked.level' walked-Walked.free' t walked-Walked.tree 2
                    pt pt a va level_now level_now (omega arith)
                    (λ z. ne (sym (walked-Walked.found ne) ∙ z)) (walked-Walked.found ne ∙ sym e) in
                absurd (
                  other (
                    px-SamePage a va (way.1 0 (omega arith)) (way.1 1 (omega arith))
                      (way.1 2 (omega arith))))
          ] in
        stored_entry va ∙ rw apart (walked_entries va)

    pub stored-Kept :
        (y : ℕ)
        → IsData h.level free y
        → Kept stored-HasRoot.level walked-Walked.free' s (store pte v t) y
    unfolding stored-HasRoot
    stored-Kept y d =
        let (now, same) = walked-Walked.kept y d in
        (
          now,
          λ b inside.
              update_ne t.mem pte b v (λ e.
                let page = (walked-Walked.tree.page leaf.0 (omega (arith, leaf.1))).3 in
                let q : leaf.0 ≡ y = omega (arith, pte_slot, px_lt 0 a) in
                absurd (omega (arith, leaf.1, ap walked-Walked.level' q, now.0)))
              ∙ same b inside,
        )

    pub stored_tables : address_for 2 pt a (store pte v t).mem ≢ 0
    stored_tables =
        let same =
          subst (λ e. address_for 2 pt a (store e v t).mem ≡ address_for 2 pt a t.mem)
            (sym pte_slot)
            (address_for-store first last walked-Walked.level' walked-Walked.free' t
              walked-Walked.tree leaf.0 (px 0 a) v leaf.1 (px_lt 0 a) 2 pt a level_now
              (omega arith)) in
        λ z. ne (sym (walked-Walked.found ne) ∙ sym same ∙ z)
