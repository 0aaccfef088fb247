-- ===== src/Kalloc/Init.antt =====
-- src/kalloc.c: kinit frees every page from the end of the kernel to the end of the memory.
use kernel_hobby.Base.{
  ℕ, zero, suc, ◌+◌, ◌-◌, ◌*◌, ◌/◌, ◌%◌, ◌≤◌, ◌≡◌, refl, sym, true, false, List, [], ◌∷◌, arith,
  has, update, update_self, leb, Bool-cases, inl, inr, ◌∙◌, ltb, subst,
}
use kernel_hobby.Kalloc.{
  Kmem, refidx, kfree, kinit_from, kinit, pgroundup, phystop, rambase, npages, pgsize,
}
use kernel_hobby.Kalloc.Heap.{IsPage, IsHeap}
use kernel_hobby.Kalloc.Laws.{counts-IsHeap, give_back-IsHeap, update-refidx}

-- one round of the loop: the page at the end of the pages so far becomes free
init_step :
    (first p : ℕ) (free : List ℕ) (s : Kmem)
    → IsHeap first p free s
    → rambase ≤ first
    → first ≤ p
    → p % pgsize ≡ 0
    → p + pgsize ≤ phystop
    → IsHeap first
        (p + pgsize)
        (p ∷ free)
        (kfree p (record s { refcnt = update s.refcnt (refidx p) 1 }))
unfolding kfree
init_step first p free s h low le aligned fits =
    let once : update s.refcnt (refidx p) 1 (refidx p) ≡ 1 = update_self s.refcnt (refidx p) 1 in
    let test : ltb 1 (update s.refcnt (refidx p) 1 (refidx p)) ≡ false = ground (arith, once) in
    let page : IsPage first (p + pgsize) p = (low, fits, le, aligned, omega arith) in
    let wider : (q : ℕ) → IsPage first p q → IsPage first (p + pgsize) q =
      λ q a. (a.0, fits, a.2, a.3, omega arith) in
    let elsewhere : (q : ℕ)
        → IsPage first p q
        → update s.refcnt (refidx p) 1 (refidx q) ≡ s.refcnt (refidx q) =
      λ q a.
        update-refidx first (p + pgsize) p q 1 s.refcnt page (wider q a)
          (λ e. absurd (omega arith)) in
    let counted =
      counts-IsHeap first p free s (update s.refcnt (refidx p) 1) h
        (λ q m. elsewhere q (h.pages q m)) (λ q a z. sym (elsewhere q a) ∙ z) in
    let off : has p free ≡ false = elim (Bool-cases (has p free)) [
      | inl on ↦ let a = h.pages p on in absurd (omega (arith, a.4))
      | inr off ↦ off
    ] in
    rw test (
      give_back-IsHeap first p (p + pgsize) p free
        (record s { refcnt = update s.refcnt (refidx p) 1 }) counted page (omega arith) off
        (λ q a ne. (a.0, omega arith, a.2, a.3, omega (arith, ne, a, aligned))))

-- the pages from `p` on, `n` of them, with the last in front of the list `free`
abbrev pub pages_from : ℕ → ℕ → List ℕ → List ℕ
pages_from zero p free = free
pages_from (suc n) p free = pages_from n (p + pgsize) (p ∷ free)

kinit_from-IsHeap :
    (n k first p : ℕ) (free : List ℕ) (s : Kmem)
    → IsHeap first p free s
    → rambase ≤ first
    → first ≤ p
    → p % pgsize ≡ 0
    → phystop ≡ p + k * pgsize
    → k ≤ n
    → IsHeap first phystop (pages_from k p free) (kinit_from n p s)
unfolding kinit_from
kinit_from-IsHeap zero zero first p free s h low le aligned e enough =
    let all : p ≡ phystop = omega arith in subst (λ q. IsHeap first q free s) all h
kinit_from-IsHeap (suc n) zero first p free s h low le aligned e enough =
    let all : p ≡ phystop = omega arith in
    let stop : leb (p + pgsize) phystop ≡ false = ground arith in
    rw stop (subst (λ q. IsHeap first q free s) all h)
kinit_from-IsHeap zero (suc k) first p free s h low le aligned e enough = absurd (omega arith)
kinit_from-IsHeap (suc n) (suc k) first p free s h low le aligned e enough =
    let go_on : leb (p + pgsize) phystop ≡ true = ground arith in
    rw go_on (
      kinit_from-IsHeap n k first (p + pgsize) (p ∷ free)
        (kfree p (record s { refcnt = update s.refcnt (refidx p) 1 }))
        (init_step first p free s h low le aligned (omega arith)) low (omega arith) (omega arith)
        (omega arith) (omega arith))

-- The static variables at power-on.
abbrev pub at_boot : (ℕ → ℕ) → Kmem
at_boot memory = record { mem = memory; freelist = 0; freecnt = 0; refcnt = λ i. 0 }

-- `kinit`, for a kernel that ends within the memory, whatever the memory holds, makes an allocator that
-- is well-formed, of the pages from the end of the kernel to the end of the memory: all of them are
-- free, in one list without repetition, and counted.
pub kinit-IsHeap :
    (end : ℕ) (memory : ℕ → ℕ)
    → rambase ≤ end
    → end ≤ phystop
    → IsHeap
        (pgroundup end)
        phystop
        (pages_from ((phystop - pgroundup end) / pgsize) (pgroundup end) [])
        (kinit end (at_boot memory))
unfolding kinit pgroundup
kinit-IsHeap end memory low high =
    kinit_from-IsHeap npages ((phystop - pgroundup end) / pgsize) (pgroundup end) (pgroundup end) []
      (at_boot memory)
      (record {
        chain = refl;
        distinct = _;
        counted = refl;
        pages = λ q m. absurd (ground (arith, m));
        unshared = λ q m. absurd (ground (arith, m));
        no_leak = λ q a z. absurd (omega (arith, a));
      })
      (omega arith) (omega arith) (omega arith) (omega arith) (omega arith)
