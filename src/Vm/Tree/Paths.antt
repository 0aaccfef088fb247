-- ===== src/Vm/Tree/Paths.antt =====
-- src/vm.c: walk on the tree of a page table.
use kernel_hobby.Base.{
  ℕ, zero, suc, ◌+◌, ◌≤◌, ◌<◌, ◌≡◌, ◌≢◌, refl, ◌∙◌, ap, true, false, List, [], ◌∷◌, arith, length,
  ◌==◌, Bool-cases, inl, inr, update,
}
use kernel_hobby.Kalloc.{Kmem, kalloc}
use kernel_hobby.Kalloc.Heap.{IsHeap}
use kernel_hobby.Kalloc.Laws.{kalloc-cons}
use kernel_hobby.Vm.{bit, v_bit, pte2pa, px, walk_from}
use kernel_hobby.Vm.Tree.{IsTree, IsData, Kept, slot, entry_for, address_for, px_lt}
use kernel_hobby.Vm.Tree.Grow.{
  linked, linked-IsTree, entry_for-linked, mem_new, mem_other, mem_data, not_x, new_entry, level'_x,
  level'_other,
}

-- What `walk` made of `s`, from the table `p` of the level `l` on: a tree, in which every entry that could be
-- found before is found as before, and the tables above are as they were. If there is an address, it is
-- that of the entry for `va`; there is one if `l` pages were free.
pub record Walked (first last l p va : ℕ) (level : ℕ → ℕ) (free : List ℕ) (s : Kmem) (r : ℕ × Kmem)
    : Type 0 where
  pub level' : ℕ → ℕ
  pub free' : List ℕ
  pub tree : IsTree first last level' free' r.1
  pub tables : (q : ℕ) → level q < 3 → level' q ≡ level q
  pub entries : (m q w : ℕ) → level q ≡ m → m < 3 → entry_for m q w r.1.mem ≡ entry_for m q w s.mem
  pub above :
      (q j : ℕ) → l < level q → level q < 3 → j < 512 → r.1.mem (slot q j) ≡ s.mem (slot q j)
  pub found : r.0 ≢ 0 → address_for l p va r.1.mem ≡ r.0
  pub enough : l ≤ length free → r.0 ≢ 0
  pub taken : length free ≤ length free' + l
  pub kept : (y : ℕ) → IsData level free y → Kept level' free' s r.1 y
  -- no table is missing
  pub ready : address_for l p va s.mem ≢ 0 → (r.0 ≢ 0) × (length free ≤ length free')

kalloc_nil : (first last : ℕ) (s : Kmem) → IsHeap first last [] s → kalloc s ≡ (0, s)
unfolding kalloc
kalloc_nil first last s h = rw h.chain refl

-- The way goes through a valid entry.
module _ (first last l p va : ℕ) (level : ℕ → ℕ) (free : List ℕ) (s : Kmem) (at : level p ≡ suc l)
    (lt : suc l < 3) (valid : bit v_bit (s.mem (slot p (px (suc l) va))) ≡ true) (r : ℕ × Kmem)
    (w : Walked first last l (pte2pa (s.mem (slot p (px (suc l) va)))) va level free s r) where
  found_below : r.0 ≢ 0 → address_for (suc l) p va r.1.mem ≡ r.0
  unfolding address_for
  found_below ne =
      let same = w.above p (px (suc l) va) (omega arith) (omega arith) (px_lt (suc l) va) in
      rw (same, valid) (w.found ne)

  below_ready : address_for (suc l) p va s.mem ≢ 0 → (r.0 ≢ 0) × (length free ≤ length w.free')
  unfolding address_for
  below_ready ne = w.ready (λ z. ne (rw valid z))

  below-Walked : Walked first last (suc l) p va level free s r
  below-Walked = record {
    level' = w.level';
    free' = w.free';
    tree = w.tree;
    tables = w.tables;
    entries = w.entries;
    above = λ q j h k i. w.above q j (omega arith) k i;
    found = found_below;
    enough = λ h. w.enough (omega arith);
    taken = omega (arith, w.taken);
    kept = w.kept;
    ready = below_ready;
  }

-- No address is found behind a missing table.
no_address :
    (l p va : ℕ) (s : Kmem)
    → bit v_bit (s.mem (slot p (px (suc l) va))) ≡ false
    → address_for (suc l) p va s.mem ≡ 0
unfolding address_for
no_address l p va s missing = rw missing refl

-- The way goes through a new table.
module _ (first last l p va x : ℕ) (level : ℕ → ℕ) (rest : List ℕ) (s : Kmem)
    (tree : IsTree first last level (x ∷ rest) s) (at : level p ≡ suc l) (lt : l < 2)
    (missing : bit v_bit (s.mem (slot p (px (suc l) va))) ≡ false) (r : ℕ × Kmem)
    (w : Walked first last l x va
      (update level x l)
      rest
      (linked x (slot p (px (suc l) va)) s)
      r) where
  abbrev i : ℕ
  i = px (suc l) va

  kept_level : (q : ℕ) → level q < 3 → update level x l q ≡ level q
  kept_level q h =
      level'_other first last x level rest s tree p l i at lt (px_lt (suc l) va) missing q
        (not_x first last x level rest s tree p l i at lt (px_lt (suc l) va) missing q h)

  found_new : r.0 ≢ 0 → address_for (suc l) p va r.1.mem ≡ r.0
  unfolding address_for
  found_new ne =
      let there =
        w.above p i (omega (arith, kept_level p (omega arith)))
          (omega (arith, kept_level p (omega arith))) (px_lt (suc l) va) in
      let new = mem_new first last x level rest s tree p l i at lt (px_lt (suc l) va) missing in
      let entry = new_entry first last x level rest s tree p l i at lt (px_lt (suc l) va) missing in
      rw (there, new, entry.1, entry.0) (w.found ne)

  new-Walked : Walked first last (suc l) p va level (x ∷ rest) s r
  new-Walked = record {
    level' = w.level';
    free' = w.free';
    tree = w.tree;
    tables = λ q h. w.tables q (omega (arith, kept_level q h)) ∙ kept_level q h;
    entries = λ m q v e h.
        w.entries m q v (kept_level q (omega arith) ∙ e) h
        ∙ entry_for-linked first last x level rest s tree p l i at lt (px_lt (suc l) va) missing m q
            v e h;
    above = λ q j h k lt'.
        w.above q j (omega (arith, kept_level q k)) (omega (arith, kept_level q k)) lt'
        ∙ mem_other first last x level rest s tree p l i at lt (px_lt (suc l) va) missing q j k lt'
            (λ b. omega (arith, ap level b.0));
    found = found_new;
    enough = λ h. w.enough (omega arith);
    taken = omega (arith, w.taken);
    kept = λ y d.
        let ne : x ≢ y = λ e. ground (arith, d.1, e) in
        let old =
          level'_other first last x level rest s tree p l i at lt (px_lt (suc l) va) missing y ne in
        let k = w.kept y (omega (arith, old, d.0), ground (arith, d.1), d.2) in
        (
          k.0,
          λ b inside.
              k.1 b inside
              ∙ mem_data first last x level rest s tree p l i at lt (px_lt (suc l) va) missing y b
                  ne d.0 d.2 inside,
        );
    ready = λ ne. absurd (ne (no_address l p va s missing));
  }

nowhere-Walked :
    (first last l p va : ℕ) (level : ℕ → ℕ) (s : Kmem)
    → IsTree first last level [] s
    → bit v_bit (s.mem (slot p (px (suc l) va))) ≡ false
    → Walked first last (suc l) p va level [] s (0, s)
nowhere-Walked first last l p va level s tree missing = record {
  level' = level;
  free' = [];
  tree = tree;
  tables = λ q h. refl;
  entries = λ m q w e h. refl;
  above = λ q j h k i. refl;
  found = λ ne. absurd (ne refl);
  enough = λ h. absurd (omega arith);
  taken = omega arith;
  kept = λ y d. (d, λ b h. refl);
  ready = λ ne. absurd (ne (no_address l p va s missing));
}

-- What a walk from a table of the level `l` is to do, whatever the tree.
abbrev Walks : ℕ → ℕ → ℕ → ℕ → Type 0
Walks first last va l =
    (p : ℕ) (level : ℕ → ℕ) (free : List ℕ) (s : Kmem)
    → IsTree first last level free s
    → level p ≡ l
    → l < 3
    → Walked first last l p va level free s (walk_from l p va true s)

walk_missing :
    (first last va l p : ℕ) (level : ℕ → ℕ) (free : List ℕ) (s : Kmem)
    → IsTree first last level free s
    → level p ≡ suc l
    → suc l < 3
    → bit v_bit (s.mem (slot p (px (suc l) va))) ≡ false
    → Walks first last va l
    → Walked first last (suc l) p va level free s (walk_from (suc l) p va true s)
unfolding walk_from
walk_missing first last va l p level [] s tree at lt missing walks =
    rw (missing, kalloc_nil first last s tree.heap)
      (nowhere-Walked first last l p va level s tree missing)
walk_missing first last va l p level (x ∷ rest) s tree at lt missing walks =
    let there : (x == 0) ≡ false = ground (arith, tree.heap.chain.1) in
    let i = px (suc l) va in
    let i_lt = px_lt (suc l) va in
    rw (missing, kalloc-cons first last x rest s tree.heap, there)
      (new-Walked first last l p va x level rest s tree at (omega arith) missing
        (walk_from l x va true (linked x (slot p i) s))
        (walks x (update level x l) rest (linked x (slot p i) s)
          (linked-IsTree first last x level rest s tree p l i at (omega arith) i_lt missing)
          (level'_x first last x level rest s tree p l i at (omega arith) i_lt missing)
          (omega arith)))

pub walk_from-Walked : (first last va l : ℕ) → Walks first last va l
unfolding walk_from address_for
walk_from-Walked first last va zero p level free s tree at lt = record {
  level' = level;
  free' = free;
  tree = tree;
  tables = λ q h. refl;
  entries = λ m q w e h. refl;
  above = λ q j h k i. refl;
  found = λ ne. refl;
  enough = λ h e. omega (arith, (tree.page p (omega arith)).0, (tree.page p (omega arith)).2);
  taken = omega arith;
  kept = λ y d. (d, λ b h. refl);
  ready = λ ne. (ne, omega arith);
}
walk_from-Walked first last va (suc l) p level free s tree at lt =
    let c = pte2pa (s.mem (slot p (px (suc l) va))) in
    elim (Bool-cases (bit v_bit (s.mem (slot p (px (suc l) va))))) [
      | inl valid ↦ rw valid (
          below-Walked first last l p va level free s at lt valid (walk_from l c va true s) (
            walk_from-Walked first last va l c level free s tree
              (tree.child p l (px (suc l) va) at (omega arith) (px_lt (suc l) va) valid)
              (omega arith)))
      | inr missing ↦
          walk_missing first last va l p level free s tree at lt missing
            (walk_from-Walked first last va l)
    ]
