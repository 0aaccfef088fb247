-- ===== src/Kalloc/Laws.antt =====
-- src/kalloc.c: kalloc, kfree and kref_inc keep the invariant, and what each does to the counts.
use kernel_hobby.Base.{
  ℕ, ◌+◌, ◌-◌, ◌%◌, ◌≤◌, ◌<◌, ◌≡◌, ◌≢◌, ◌⊎◌, inl, inr, refl, sym, true, false, List, [], ◌∷◌, arith,
  has, update, update_self, update_ne, ◌==◌, ltb, Bool-cases, ℕ_discrete, ◌∙◌, subst,
}
use kernel_hobby.Kalloc.{Kmem, refidx, kalloc, kfree, kref_inc, take_first, give_back}
use kernel_hobby.Kalloc.Heap.{IsPage, IsHeap, refidx-injective, Chain-update}

-- the count of references of a page
abbrev pub refs : Kmem → ℕ → ℕ
refs s p = s.refcnt (refidx p)

-- A write to the count of one page is not seen at another.
pub update-refidx :
    (first last p q v : ℕ) (f : ℕ → ℕ)
    → IsPage first last p
    → IsPage first last q
    → p ≢ q
    → update f (refidx p) v (refidx q) ≡ f (refidx q)
update-refidx first last p q v f a b ne =
    update_ne f (refidx p) (refidx q) v (λ e. ne (refidx-injective first last p q a b e))

-- What `kalloc` did if it returned `p`, with the free pages `free` before and `rest` after.
pub record Allocated (first last p : ℕ) (rest : List ℕ) (s t : Kmem) : Type 0 where
  pub page : IsPage first last p
  pub was_free : refs s p ≡ 0
  pub owned : refs t p ≡ 1
  pub others : (q : ℕ) → IsPage first last q → p ≢ q → refs t q ≡ refs s q
  pub heap : IsHeap first last rest t

pub take_first-Allocated :
    (first last x : ℕ) (rest : List ℕ) (s : Kmem)
    → IsHeap first last (x ∷ rest) s
    → Allocated first last x rest s (take_first s)
unfolding take_first
take_first-Allocated first last x rest s h =
    let here : has x (x ∷ rest) ≡ true = ground arith in
    let page = h.pages x here in
    let others : (q : ℕ) → IsPage first last q → x ≢ q → refs (take_first s) q ≡ refs s q =
      λ q a ne. rw h.chain.0 (update-refidx first last x q 1 s.refcnt page a ne) in
    record {
      page = page;
      was_free = h.unshared x here;
      owned = rw h.chain.0 (update_self s.refcnt (refidx x) 1);
      others = others;
      heap = record {
        chain = rw h.chain.0 h.chain.2;
        distinct = h.distinct.1;
        counted = omega (arith, h.counted);
        pages = λ q m. h.pages q (ground (arith, m));
        unshared = λ q m.
            others q (h.pages q (ground (arith, m)))
              (λ e. absurd (ground (arith, h.distinct.0, m, e)))
            ∙ h.unshared q (ground (arith, m));
        no_leak = λ q a z. elim (ℕ_discrete x q) [
          | yes e ↦
              let one : refs (take_first s) q ≡ 1 =
                rw (h.chain.0, sym e) (update_self s.refcnt (refidx x) 1) in
              absurd (omega (arith, one, z))
          | no ne ↦ ground (arith, h.no_leak q a (sym (others q a ne) ∙ z), ne)
        ];
      };
    }

pub kalloc-cons :
    (first last x : ℕ) (rest : List ℕ) (s : Kmem)
    → IsHeap first last (x ∷ rest) s
    → kalloc s ≡ (x, take_first s)
unfolding kalloc
kalloc-cons first last x rest s h =
    let there : (s.freelist == 0) ≡ false = ground (arith, h.chain.0, h.chain.1) in
    rw there (λ i. (h.chain.0 i, take_first s))

-- A page that is not on the list goes on it; the pages may become more by this one.
pub give_back-IsHeap :
    (first last more p : ℕ) (free : List ℕ) (s : Kmem)
    → IsHeap first last free s
    → IsPage first more p
    → last ≤ more
    → has p free ≡ false
    → ((q : ℕ) → IsPage first more q → p ≢ q → IsPage first last q)
    → IsHeap first more (p ∷ free) (give_back p s)
unfolding give_back
give_back-IsHeap first last more p free s h page le off only =
    let grown : (q : ℕ) → has q free ≡ true → IsPage first more q =
      λ q m. let a = h.pages q m in (page.0, page.1, a.2, a.3, omega arith) in
    record {
      chain = (
        refl,
        omega arith,
        rw (update_self s.mem p s.freelist)
            (Chain-update s.mem p s.freelist s.freelist free off h.chain),
      );
      distinct = (off, h.distinct);
      counted = omega (arith, h.counted);
      pages = λ q m. elim (ℕ_discrete p q) [
        | yes e ↦ subst (IsPage first more) e page
        | no ne ↦ grown q (ground (arith, m, ne))
      ];
      unshared = λ q m. elim (ℕ_discrete p q) [
        | yes e ↦ rw e (update_self s.refcnt (refidx q) 0)
        | no ne ↦
            let m' : has q free ≡ true = ground (arith, m, ne) in
            update-refidx first more p q 0 s.refcnt page (grown q m') ne ∙ h.unshared q m'
      ];
      no_leak = λ q a z. elim (ℕ_discrete p q) [
        | yes e ↦ ground (arith, e)
        | no ne ↦
            let m =
              h.no_leak q (only q a ne)
                (sym (update-refidx first more p q 0 s.refcnt page a ne) ∙ z) in
            ground (arith, m)
      ];
    }

-- A change of the counts that keeps which pages are free keeps the invariant.
pub counts-IsHeap :
    (first last : ℕ) (free : List ℕ) (s : Kmem) (f : ℕ → ℕ)
    → IsHeap first last free s
    → ((q : ℕ) → has q free ≡ true → f (refidx q) ≡ s.refcnt (refidx q))
    → ((q : ℕ) → IsPage first last q → f (refidx q) ≡ 0 → s.refcnt (refidx q) ≡ 0)
    → IsHeap first last free (record s { refcnt = f })
counts-IsHeap first last free s f h same zeros = record {
  chain = h.chain;
  distinct = h.distinct;
  counted = h.counted;
  pages = h.pages;
  unshared = λ q m. same q m ∙ h.unshared q m;
  no_leak = λ q a z. h.no_leak q a (zeros q a z);
}

-- The count of `p` is `n`, the other counts are as before, and the invariant holds.
pub record Counted (first last p n : ℕ) (s t : Kmem) : Type 0 where
  pub count : refs t p ≡ n
  pub others : (q : ℕ) → IsPage first last q → p ≢ q → refs t q ≡ refs s q
  pub free : List ℕ
  pub heap : IsHeap first last free t

-- Writing a count other than 0 over a count other than 0.
recount :
    (first last p n : ℕ) (free : List ℕ) (s : Kmem)
    → IsHeap first last free s
    → IsPage first last p
    → refs s p ≢ 0
    → 0 < n
    → Counted first last p n s (record s { refcnt = update s.refcnt (refidx p) n })
recount first last p n free s h page used pos = record {
  count = update_self s.refcnt (refidx p) n;
  others = λ q a ne. update-refidx first last p q n s.refcnt page a ne;
  free = free;
  heap =
      counts-IsHeap first last free s (update s.refcnt (refidx p) n) h
        (λ q m.
          update-refidx first last p q n s.refcnt page (h.pages q m)
            (λ e. used (rw e (h.unshared q m))))
        (λ q a z. elim (ℕ_discrete p q) [
          | yes e ↦
              let written : update s.refcnt (refidx p) n (refidx q) ≡ n =
                rw e (update_self s.refcnt (refidx q) n) in
              absurd (omega (arith, written, z))
          | no ne ↦ sym (update-refidx first last p q n s.refcnt page a ne) ∙ z
        ]);
}

-- `kalloc` on an allocator that is well-formed: it returns 0, changes nothing, and every page is in use;
-- or it returns a page that nobody used, which now has one owner, and the other counts are as before.
-- The allocator stays well-formed.
kalloc_lem :
    (first last : ℕ) (free : List ℕ) (s : Kmem)
    → IsHeap first last free s
    → ((kalloc s ≡ (0, s)) × ((q : ℕ) → IsPage first last q → refs s q ≢ 0))
      ⊎ ((rest : List ℕ) × Allocated first last (kalloc s).0 rest s (kalloc s).1)
unfolding kalloc
kalloc_lem first last [] s h =
    inl (rw h.chain refl, λ q a z. absurd (ground (arith, h.no_leak q a z)))
kalloc_lem first last (x ∷ rest) s h =
    inr (rest, rw (kalloc-cons first last x rest s h) (take_first-Allocated first last x rest s h))

-- `kfree` of a page in use on a well-formed allocator takes one from the count of the page, leaves the
-- other counts, and keeps the allocator well-formed: the page is free if and only if the count is 0.
pub kfree-Counted :
    (first last p : ℕ) (free : List ℕ) (s : Kmem)
    → IsHeap first last free s
    → IsPage first last p
    → refs s p ≢ 0
    → Counted first last p (refs s p - 1) s (kfree p s)
unfolding kfree give_back
kfree-Counted first last p free s h page used = elim (Bool-cases (ltb 1 (refs s p))) [
  | inl shared ↦ rw shared (recount first last p (refs s p - 1) free s h page used (ground arith))
  | inr one ↦
      let last_one : refs s p ≡ 1 = ground (arith, used, one) in
      let off : has p free ≡ false = elim (Bool-cases (has p free)) [
        | inl on ↦ absurd (used (h.unshared p on))
        | inr off ↦ off
      ] in
      rw one (record {
        count = update_self s.refcnt (refidx p) 0 ∙ omega (arith, last_one);
        others = λ q a ne. update-refidx first last p q 0 s.refcnt page a ne;
        free = p ∷ free;
        heap = give_back-IsHeap first last last p free s h page (omega arith) off (λ q a ne. a);
      })
]

-- `kref_inc` of a page in use, with less than 255 references, on a well-formed allocator adds one to the
-- count of the page, leaves the other counts, and keeps the allocator well-formed.
kref_inc-Counted :
    (first last p : ℕ) (free : List ℕ) (s : Kmem)
    → IsHeap first last free s
    → IsPage first last p
    → refs s p ≢ 0
    → refs s p < 255
    → Counted first last p (refs s p + 1) s (kref_inc p s)
unfolding kref_inc
kref_inc-Counted first last p free s h page used few =
    let small : (refs s p + 1) % 256 ≡ refs s p + 1 = omega arith in
    rw small (recount first last p (refs s p + 1) free s h page used (omega arith))
