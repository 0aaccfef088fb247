-- ===== src/Vm/Tree.antt =====
-- src/vm.c: the page tables as trees in memory.
pub mod Grow
pub mod Paths
pub mod Leaf
pub mod Maps
pub mod Loop
pub mod Ranges
pub mod Data
pub mod Root
pub mod Kernel
mod Tests
use kernel_hobby.Base.{
  ℕ, zero, suc, ◌+◌, ◌*◌, ◌/◌, ◌%◌, ◌^◌, ◌≤◌, ◌<◌, ◌≡◌, ◌≢◌, refl, sym, ◌∙◌, ap, true, false, Bool,
  List, [], ◌∷◌, arith, has, ◌==◌, if◌then◌else◌, Bool-cases, inl, inr,
}
use kernel_hobby.Kalloc.{Kmem, pgsize}
use kernel_hobby.Kalloc.Heap.{IsPage, IsHeap}
use kernel_hobby.Vm.{bit, v_bit, pte2pa, px, walk_from}
use kernel_hobby.Vm.Cow.{In}

-- the address of an entry
abbrev pub slot : ℕ → ℕ → ℕ
slot p i = p + i * 8

-- The pages whose `level` is less than 3 are tables of that level, in use. A valid entry of a table leads to
-- a table one level down, and no other entry leads there.
pub record IsTree (first last : ℕ) (level : ℕ → ℕ) (free : List ℕ) (s : Kmem) : Type 0 where
  pub heap : IsHeap first last free s
  pub page : (p : ℕ) → level p < 3 → IsPage first last p
  pub used : (p : ℕ) → level p < 3 → has p free ≡ false
  pub child :
      (p l i : ℕ)
      → level p ≡ suc l
      → l < 2
      → i < 512
      → bit v_bit (s.mem (slot p i)) ≡ true
      → level (pte2pa (s.mem (slot p i))) ≡ l
  pub alone :
      (p q l i j : ℕ)
      → level p ≡ suc l
      → level q ≡ suc l
      → l < 2
      → i < 512
      → j < 512
      → bit v_bit (s.mem (slot p i)) ≡ true
      → bit v_bit (s.mem (slot q j)) ≡ true
      → pte2pa (s.mem (slot p i)) ≡ pte2pa (s.mem (slot q j))
      → (p ≡ q) × (i ≡ j)

-- A page that is in use, and no table.
abbrev pub IsData : (ℕ → ℕ) → List ℕ → ℕ → Type 0
IsData level free y = (3 ≤ level y) × (has y free ≡ false) × (y % 4096 ≡ 0)

-- It still is, and holds what it held.
abbrev pub Kept : (ℕ → ℕ) → List ℕ → Kmem → Kmem → ℕ → Type 0
Kept level free s t y = IsData level free y × ((b : ℕ) → In b y → t.mem b ≡ s.mem b)

-- The entry for `va` in the table `p` of a level: 0 if a table is missing on the way.
unfoldable pub entry_for : ℕ → ℕ → ℕ → (ℕ → ℕ) → ℕ
entry_for zero p va m = m (slot p (px 0 va))
entry_for (suc l) p va m =
    let e = m (slot p (px (suc l) va)) in
    let rest = entry_for l (pte2pa e) va m in if bit v_bit e then rest else 0

-- and the address of the entry: 0 if a table is missing
unfoldable pub address_for : ℕ → ℕ → ℕ → (ℕ → ℕ) → ℕ
address_for zero p va m = slot p (px 0 va)
address_for (suc l) p va m =
    let e = m (slot p (px (suc l) va)) in
    let rest = address_for l (pte2pa e) va m in if bit v_bit e then rest else 0

pub px_lt : (l va : ℕ) → px l va < 512
unfolding px
px_lt l va = omega arith

pub slot-injective :
    (p q i j : ℕ)
    → p % 4096 ≡ 0
    → q % 4096 ≡ 0
    → i < 512
    → j < 512
    → slot p i ≡ slot q j
    → (p ≡ q) × (i ≡ j)
slot-injective p q i j a b lt lt' e = omega arith

pub slot_off : (p i x : ℕ) → p % 4096 ≡ 0 → x % 4096 ≡ 0 → i < 512 → p ≢ x → ¬ In (slot p i) x
slot_off p i x a b lt ne = λ inside. omega arith

-- `walk` that allocates nothing finds the address, and changes nothing.
pub walk_from-address_for :
    (l p va : ℕ) (s : Kmem) → walk_from l p va false s ≡ (address_for l p va s.mem, s)
unfolding walk_from address_for
walk_from-address_for zero p va s = refl
walk_from-address_for (suc l) p va s =
    elim (Bool-cases (bit v_bit (s.mem (slot p (px (suc l) va))))) [
      | inl valid ↦
          rw valid (walk_from-address_for l (pte2pa (s.mem (slot p (px (suc l) va)))) va s)
      | inr missing ↦ rw missing refl
    ]

module _ (first last : ℕ) (level : ℕ → ℕ) (free : List ℕ) (s : Kmem)
    (tree : IsTree first last level free s) where
  pub aligned : (p : ℕ) → level p < 3 → p % 4096 ≡ 0
  aligned p h = (tree.page p h).3

  -- The entry is what memory holds at its address, which is 0 only if a table is missing.
  pub entry_for-address_for :
      (l p va : ℕ)
      → level p ≡ l
      → l < 3
      → entry_for l p va s.mem
        ≡ (if address_for l p va s.mem == 0 then 0 else s.mem (address_for l p va s.mem))
  unfolding entry_for address_for
  entry_for-address_for zero p va e lt =
      let here : (slot p (px 0 va) == 0) ≡ false =
        ground (arith, (tree.page p (omega arith)).0, (tree.page p (omega arith)).2) in
      rw here refl
  entry_for-address_for (suc l) p va e lt =
      elim (Bool-cases (bit v_bit (s.mem (slot p (px (suc l) va))))) [
        | inl valid ↦ rw valid (
            entry_for-address_for l (pte2pa (s.mem (slot p (px (suc l) va)))) va
              (tree.child p l (px (suc l) va) e (omega arith) (px_lt (suc l) va) valid)
              (omega arith))
        | inr missing ↦ rw missing refl
      ]
