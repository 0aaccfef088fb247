-- ===== src/Kalloc/Heap.antt =====
-- src/kalloc.c: the free list as a list of pages, and the invariant of the allocator.
use kernel_hobby.Base.{
  ℕ, ◌+◌, ◌%◌, ◌^◌, ◌≤◌, ◌<◌, ◌≡◌, true, false, List, [], ◌∷◌, arith, length, has, Distinct, update,
  ◌==◌,
}
use kernel_hobby.Kalloc.{Kmem, refidx, pgsize, phystop, rambase}

-- The pages from the address `first` up to `last`, within the memory.
abbrev pub IsPage : ℕ → ℕ → ℕ → Type 0
IsPage first last p =
    (rambase ≤ first) × (last ≤ phystop) × (first ≤ p) × (p % pgsize ≡ 0) × (p + pgsize ≤ last)

-- From `p`, the links `next` lead through just these pages to 0.
abbrev pub Chain : (ℕ → ℕ) → ℕ → List ℕ → Type 0
Chain next p [] = p ≡ 0
Chain next p (x ∷ xs) = (p ≡ x) × (0 < x) × Chain next (next x) xs

-- The allocator of the pages from `first` up to `last`: the free list is `free`, without repetition, counted by `freecnt`; and a page is on it if and only if
-- its count of references is 0.
pub record IsHeap (first last : ℕ) (free : List ℕ) (s : Kmem) : Type 0 where
  pub chain : Chain s.mem s.freelist free
  pub distinct : Distinct free
  pub counted : s.freecnt ≡ length free % 2 ^ 64
  pub pages : (p : ℕ) → has p free ≡ true → IsPage first last p
  pub unshared : (p : ℕ) → has p free ≡ true → s.refcnt (refidx p) ≡ 0
  pub no_leak : (p : ℕ) → IsPage first last p → s.refcnt (refidx p) ≡ 0 → has p free ≡ true

-- Two pages with one counter are one page.
pub refidx-injective :
    (first last p q : ℕ) → IsPage first last p → IsPage first last q → refidx p ≡ refidx q → p ≡ q
unfolding refidx
refidx-injective first last p q a b h = omega arith

-- A write to a page off the list leaves the list.
pub Chain-update :
    (next : ℕ → ℕ) (a v p : ℕ) (xs : List ℕ)
    → has a xs ≡ false
    → Chain next p xs
    → Chain (update next a v) p xs
Chain-update next a v p [] off c = c
Chain-update next a v p (x ∷ xs) off (e, pos, c) =
    let tail = Chain-update next a v (next x) xs (ground arith) c in
    let other : (a == x) ≡ false = ground arith in (e, pos, rw other tail)
