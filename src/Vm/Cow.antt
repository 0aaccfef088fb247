-- ===== src/Vm/Cow.antt =====
-- src/vm.c: uvm_cow_fault gives the writer a page of its own.
use kernel_hobby.Base.{
  ℕ, ◌+◌, ◌-◌, ◌*◌, ◌/◌, ◌%◌, ◌≤◌, ◌<◌, ◌≡◌, ◌≢◌, refl, sym, ◌∙◌, true, false, List, [], ◌∷◌, arith,
  has, All, update_self, update_ne, ltb, leb, ◌==◌, ◌&&◌, ap, ◌||◌, not, Bool-cases, inl, inr,
  subst,
}
use kernel_hobby.Kalloc.{Kmem, refidx, pgsize, kfree, take_first, give_back}
use kernel_hobby.Kalloc.Heap.{IsPage, IsHeap, Chain}
use kernel_hobby.Kalloc.Laws.{kalloc-cons, refs, take_first-Allocated, kfree-Counted}
use kernel_hobby.Vm.{
  bit, walk, pgrounddown, uvm_cow_fault, copy_page, store, own_flags, pte2pa, pa2pte, pte_flags,
  v_bit, w_bit, cow_bit,
}
use kernel_hobby.Vm.Pte.{pte_lem}

-- The address lies in the page.
abbrev pub In : ℕ → ℕ → Type 0
In a page = (page ≤ a) × (a < page + pgsize)

Chain-agrees :
    (m m' : ℕ → ℕ) (p : ℕ) (xs : List ℕ)
    → ((x : ℕ) → has x xs ≡ true → m' x ≡ m x)
    → Chain m p xs
    → Chain m' p xs
Chain-agrees m m' p [] same c = c
Chain-agrees m m' p (x ∷ xs) same (e, pos, c) =
    let here : m' x ≡ m x = same x (ground arith) in
    (e, pos, rw here (Chain-agrees m m' (m x) xs (λ y h. same y (ground (arith, h))) c))

-- Memory off the free pages does not matter to the allocator.
pub memory-IsHeap :
    (first last : ℕ) (free : List ℕ) (s : Kmem) (m : ℕ → ℕ)
    → IsHeap first last free s
    → ((x : ℕ) → has x free ≡ true → m x ≡ s.mem x)
    → IsHeap first last free (record s { mem = m })
memory-IsHeap first last free s m h same = record {
  chain = Chain-agrees s.mem m s.freelist free same h.chain;
  distinct = h.distinct;
  counted = h.counted;
  pages = h.pages;
  unshared = h.unshared;
  no_leak = h.no_leak;
}

-- `kfree` writes nothing but the first word of its page.
kfree_mem : (p a : ℕ) (s : Kmem) → p ≢ a → (kfree p s).mem a ≡ s.mem a
unfolding kfree give_back
kfree_mem p a s ne = elim (Bool-cases (ltb 1 (s.refcnt (refidx p)))) [
  | inl shared ↦ rw shared refl
  | inr one ↦ rw one (update_ne s.mem p a s.freelist ne)
]

copy_in :
    (dst src i : ℕ) (s : Kmem) → i < pgsize → (copy_page dst src s).mem (dst + i) ≡ s.mem (src + i)
unfolding copy_page
copy_in dst src i s lt =
    let inside : (leb dst (dst + i) && ltb (dst + i) (dst + pgsize)) ≡ true = ground arith in
    let offset : dst + i - dst ≡ i = omega arith in rw (inside, offset) refl

copy_out : (dst src a : ℕ) (s : Kmem) → ¬ In a dst → (copy_page dst src s).mem a ≡ s.mem a
unfolding copy_page
copy_out dst src a s off = ground (arith, off)

-- The page table entry at the address `pte` is valid, is marked copy-on-write, and is for a page in use;
-- the entry lies neither in that page nor in a free one.
pub record Shares (first last pte : ℕ) (free : List ℕ) (s : Kmem) : Type 0 where
  pub heap : IsHeap first last free s
  pub there : pte ≢ 0
  pub valid : bit v_bit (s.mem pte) ≡ true
  pub marked : bit cow_bit (s.mem pte) ≡ true
  pub page : IsPage first last (pte2pa (s.mem pte))
  pub used : refs s (pte2pa (s.mem pte)) ≢ 0
  pub outside : ¬ In pte (pte2pa (s.mem pte))
  pub apart : (x : ℕ) → has x free ≡ true → ¬ In pte x

-- the ten bits of flags of an entry, but for the permission to write and the copy-on-write mark
abbrev pub other_flags : List ℕ
other_flags = 0 ∷ 1 ∷ 3 ∷ 4 ∷ 5 ∷ 6 ∷ 7 ∷ 9 ∷ []

-- The two entries have the same flags but for these two.
abbrev pub SameFlags : ℕ → ℕ → Type 0
SameFlags n m = All (λ b. bit b n ≡ bit b m) other_flags

-- What a fault on the entry at `pte` made of `s`: the entry is for the page `fresh` that nobody used, may
-- be written, is not marked and has the other flags of the entry before; that page holds what the shared page
-- held; the shared page has one user less, and the other pages have as many as before; and no other memory changed
-- but the first word of the shared page.
pub record Copied (first last pte fresh : ℕ) (s t : Kmem) : Type 0 where
  pub was_free : refs s fresh ≡ 0
  pub points : pte2pa (t.mem pte) ≡ fresh
  pub writable : bit w_bit (t.mem pte) ≡ true
  pub unmarked : bit cow_bit (t.mem pte) ≡ false
  pub flags : SameFlags (t.mem pte) (s.mem pte)
  pub contents : (i : ℕ) → i < pgsize → t.mem (fresh + i) ≡ s.mem (pte2pa (s.mem pte) + i)
  pub owned : refs t fresh ≡ 1
  pub released : refs t (pte2pa (s.mem pte)) ≡ refs s (pte2pa (s.mem pte)) - 1
  pub others :
      (q : ℕ) → IsPage first last q → fresh ≢ q → pte2pa (s.mem pte) ≢ q → refs t q ≡ refs s q
  pub unchanged : (a : ℕ) → a ≢ pte → ¬ In a fresh → a ≢ pte2pa (s.mem pte) → t.mem a ≡ s.mem a
  pub free : List ℕ
  pub heap : IsHeap first last free t

own_flags_lem :
    (n : ℕ)
    → (bit w_bit (own_flags (pte_flags n)) ≡ true)
      × (bit cow_bit (own_flags (pte_flags n)) ≡ false)
      × (own_flags (pte_flags n) < 1024)
unfolding own_flags pte_flags
own_flags_lem n = ground arith

own_flags-SameFlags : (pa n : ℕ) → SameFlags (pa2pte pa + own_flags (pte_flags n)) n
unfolding own_flags pte_flags pa2pte
own_flags-SameFlags pa n = (
  ground arith,
  (
    ground arith,
    (
      ground arith,
      (ground arith, (ground arith, (ground arith, (ground arith, (ground arith, tt))))),
    ),
  ),
)

-- The bits of an entry below its address are the flags.
entry_w : (pa f : ℕ) → bit w_bit (pa2pte pa + f) ≡ bit w_bit f
unfolding pa2pte
entry_w pa f =
    let e : (pa / 4096 * 1024 + f) / 4 % 2 ≡ f / 4 % 2 = omega arith in ap (λ n. n == 1) e

entry_cow : (pa f : ℕ) → bit cow_bit (pa2pte pa + f) ≡ bit cow_bit f
unfolding pa2pte
entry_cow pa f =
    let e : (pa / 4096 * 1024 + f) / 256 % 2 ≡ f / 256 % 2 = omega arith in ap (λ n. n == 1) e

take_first_mem : (s : Kmem) → (take_first s).mem ≡ s.mem
unfolding take_first
take_first_mem s = refl

-- the state before the shared page is let go
abbrev switched : ℕ → ℕ → Kmem → Kmem
switched pte fresh s =
    let u = copy_page fresh (pte2pa (s.mem pte)) (take_first s) in
    store pte (pa2pte fresh + own_flags (pte_flags (u.mem pte))) u

fault_run :
    (first last pt va x : ℕ) (rest : List ℕ) (s : Kmem)
    → Shares first last (walk pt (pgrounddown va) false s).0 (x ∷ rest) s
    → uvm_cow_fault pt va s ≡ (
      true,
      kfree
          (pte2pa (s.mem (walk pt (pgrounddown va) false s).0))
          (switched (walk pt (pgrounddown va) false s).0 x s),
    )
unfolding uvm_cow_fault
fault_run first last pt va x rest s h =
    let test : ((walk pt (pgrounddown va) false s).0 == 0
          || not (bit v_bit (s.mem (walk pt (pgrounddown va) false s).0))
          || not (bit cow_bit (s.mem (walk pt (pgrounddown va) false s).0)))
        ≡ false =
      ground (arith, h.there, h.valid, h.marked) in
    let got : (x == 0) ≡ false = ground (arith, h.heap.chain.1) in
    rw test (rw (kalloc-cons first last x rest s h.heap) (rw got refl))

-- Two pages do not overlap.
pages_apart :
    (first last p q a : ℕ) → IsPage first last p → IsPage first last q → p ≢ q → In a p → ¬ In a q
pages_apart first last p q a hp hq ne i j = omega arith

switched_out : (pte x a : ℕ) (s : Kmem) → a ≢ pte → ¬ In a x → (switched pte x s).mem a ≡ s.mem a
switched_out pte x a s ne off =
    let u = copy_page x (pte2pa (s.mem pte)) (take_first s) in
    update_ne u.mem pte a (pa2pte x + own_flags (pte_flags (u.mem pte))) (λ e. ne (sym e))
    ∙ copy_out x (pte2pa (s.mem pte)) a (take_first s) off
    ∙ ap (λ m. m a) (take_first_mem s)

switched-IsHeap :
    (first last pte x : ℕ) (rest : List ℕ) (s : Kmem)
    → Shares first last pte (x ∷ rest) s
    → IsHeap first last rest (switched pte x s)
unfolding copy_page
switched-IsHeap first last pte x rest s h =
    let fresh = take_first-Allocated first last x rest s h.heap in
    memory-IsHeap first last rest (take_first s) (switched pte x s).mem fresh.heap (λ y m.
      let listed : has y (x ∷ rest) ≡ true = ground (arith, m) in
      let other : x ≢ y = λ e. absurd (ground (arith, h.heap.distinct.0, m, e)) in
      switched_out pte x y s (λ e. h.apart y listed (omega (arith, e)))
        (pages_apart first last y x y (h.heap.pages y listed) fresh.page (λ e. other (sym e))
          (omega arith))
      ∙ sym (ap (λ f. f y) (take_first_mem s)))

refs-switched : (pte x q : ℕ) (s : Kmem) → refs (switched pte x s) q ≡ refs (take_first s) q
unfolding copy_page
refs-switched pte x q s = refl

switched_pte :
    (pte x : ℕ) (s : Kmem)
    → ¬ In pte x
    → (switched pte x s).mem pte ≡ pa2pte x + own_flags (pte_flags (s.mem pte))
switched_pte pte x s off =
    let u = copy_page x (pte2pa (s.mem pte)) (take_first s) in
    let same : u.mem pte ≡ s.mem pte =
      copy_out x (pte2pa (s.mem pte)) pte (take_first s) off ∙ ap (λ m. m pte) (take_first_mem s) in
    update_self u.mem pte (pa2pte x + own_flags (pte_flags (u.mem pte)))
    ∙ ap (λ n. pa2pte x + own_flags (pte_flags n)) same

copied_bytes :
    (pte x i : ℕ) (s : Kmem)
    → ¬ In pte x
    → i < pgsize
    → (switched pte x s).mem (x + i) ≡ s.mem (pte2pa (s.mem pte) + i)
copied_bytes pte x i s off lt =
    let u = copy_page x (pte2pa (s.mem pte)) (take_first s) in
    update_ne u.mem pte (x + i) (pa2pte x + own_flags (pte_flags (u.mem pte)))
      (λ e. off (omega (arith, e)))
    ∙ copy_in x (pte2pa (s.mem pte)) i (take_first s) lt
    ∙ ap (λ m. m (pte2pa (s.mem pte) + i)) (take_first_mem s)

switched-Copied :
    (first last pte x : ℕ) (rest : List ℕ) (s : Kmem)
    → Shares first last pte (x ∷ rest) s
    → Copied first last pte x s (kfree (pte2pa (s.mem pte)) (switched pte x s))
switched-Copied first last pte x rest s h =
    let old = pte2pa (s.mem pte) in
    let fresh = take_first-Allocated first last x rest s h.heap in
    let off : ¬ In pte x = h.apart x (ground arith) in
    let ne : x ≢ old = λ e. h.used (subst (λ q. refs s q ≡ 0) e fresh.was_free) in
    let users : refs (switched pte x s) old ≡ refs s old =
      refs-switched pte x old s ∙ fresh.others old h.page ne in
    let freed =
      kfree-Counted first last old rest (switched pte x s)
        (switched-IsHeap first last pte x rest s h) h.page (λ z. h.used (sym users ∙ z)) in
    let not_pte : old ≢ pte = λ e. h.outside (omega (arith, e)) in
    let entry = kfree_mem old pte (switched pte x s) not_pte ∙ switched_pte pte x s off in
    let flags = own_flags_lem (s.mem pte) in
    let page = fresh.page in
    record {
      was_free = fresh.was_free;
      points =
          ap pte2pa entry
          ∙ (pte_lem x (own_flags (pte_flags (s.mem pte))) page.3 (omega (arith, page)) flags.2).0;
      writable = ap (bit w_bit) entry ∙ entry_w x (own_flags (pte_flags (s.mem pte))) ∙ flags.0;
      unmarked = ap (bit cow_bit) entry ∙ entry_cow x (own_flags (pte_flags (s.mem pte))) ∙ flags.1;
      flags = rw entry (own_flags-SameFlags x (s.mem pte));
      others = λ q a nf no. freed.others q a no ∙ refs-switched pte x q s ∙ fresh.others q a nf;
      contents = λ i lt.
          kfree_mem old (x + i) (switched pte x s) (λ e.
            pages_apart first last x old (x + i) page h.page ne (omega arith) (omega (arith, e)))
          ∙ copied_bytes pte x i s off lt;
      owned = freed.others x page (λ e. ne (sym e)) ∙ refs-switched pte x x s ∙ fresh.owned;
      released = freed.count ∙ ap (λ n. n - 1) users;
      unchanged = λ a na nf no.
          kfree_mem old a (switched pte x s) (λ e. no (sym e)) ∙ switched_out pte x a s na nf;
      free = freed.free;
      heap = freed.heap;
    }

-- A write fault on a page that is shared copy-on-write, with a page `x` free: `uvm_cow_fault` returns 1.
-- The entry of the page table is then for `x`, may be written, is not marked, and has the other flags that it had; `x`
-- has the contents of the shared page and one user; the shared page has one user less, the other pages as many as
-- before; no other memory changed, but for the first word of the shared page; and the allocator stays well-formed.
pub uvm_cow_fault-Copied :
    (first last pt va x : ℕ) (rest : List ℕ) (s : Kmem)
    → Shares first last (walk pt (pgrounddown va) false s).0 (x ∷ rest) s
    → ((uvm_cow_fault pt va s).0 ≡ true)
      × Copied first last (walk pt (pgrounddown va) false s).0 x s (uvm_cow_fault pt va s).1
uvm_cow_fault-Copied first last pt va x rest s h =
    rw (fault_run first last pt va x rest s h)
      (refl, switched-Copied first last (walk pt (pgrounddown va) false s).0 x rest s h)
