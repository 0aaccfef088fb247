-- ===== src/Proc/Fault.antt =====
-- src/proc.c, src/vm.c and src/kalloc.c: a page fault of a process in its heap, or in a file that it mapped.
mod Tests
use kernel_hobby.Base.{
  ℕ, ◌+◌, ◌-◌, ◌*◌, ◌/◌, ◌%◌, ◌^◌, ◌≤◌, ◌<◌, ◌≡◌, refl, sym, ◌∙◌, ap, subst, true, false, Bool,
  Option, some, List, ◌∷◌, arith, length, ltb, leb, ◌==◌, ◌&&◌, not, if◌then◌else◌, get_or, fun_ext,
  Bool-cases, inl, inr,
}
use kernel_hobby.Kalloc.{Kmem, pgsize, kalloc, take_first}
use kernel_hobby.Kalloc.Laws.{kalloc-cons}
use kernel_hobby.Vm.{
  bit, v_bit, heapbase, perm_ru, perm_rwu, zero_page, uvm_map, mappages, uvm_cow_fault, pgrounddown,
}
use kernel_hobby.Vm.Cow.{In}
use kernel_hobby.Vm.Tree.{IsData, Kept}
use kernel_hobby.Vm.Tree.Leaf.{SamePage}
use kernel_hobby.Vm.Tree.Maps.{HasRoot, translation, entry_of, translation-SamePage}
use kernel_hobby.Vm.Tree.Ranges.{Mapped, mappages-Mapped}
use kernel_hobby.Vm.Tree.Data.{
  filled, filled-In, taken, taken-HasRoot, translation-taken, taken-IsData, taken_kept,
  cow_unmapped,
}
use kernel_hobby.Elf.{le_bytes}
use kernel_hobby.Fs.State.{Fs}
use kernel_hobby.Fs.Read.{fs_read_page}
use kernel_hobby.Fs.Read.Pages.{file_byte, fs_read_page-file_byte}
use kernel_hobby.Proc.Table.{Proc}
use kernel_hobby.Proc.{Kernel, mmap_end}
use kernel_hobby.Proc.User.{fault_page, byte_page, with_memory, proc_pagefault}

-- What a fault at `va` made of the memory `s`: the page `x` with the words `g` is where `va` is, with these
-- flags. All other pages are translated as before, the tables make a tree, and the pages of data hold what
-- they held.
pub record Faulted (first last pt x va perm : ℕ) (g : ℕ → ℕ) (level : ℕ → ℕ) (free : List ℕ)
    (s t : Kmem) : Type 0 where
  pub free' : List ℕ
  pub root : HasRoot first last pt free' t
  pub translated : translation pt t va ≡ entry_of x perm
  pub others : (y : ℕ) → ¬ SamePage va y → translation pt t y ≡ translation pt s y
  pub contents : (b : ℕ) → In b x → t.mem b ≡ g b
  pub page : IsData root.level free' x
  pub kept : (y : ℕ) → IsData level free y → Kept root.level free' s t y

abbrev page_of : ℕ → ℕ
page_of va = va / pgsize * pgsize

module _ (first last pt x va perm : ℕ) (rest : List ℕ) (s : Kmem) (g : ℕ → ℕ)
    (h : HasRoot first last pt (x ∷ rest) s) (enough : 2 ≤ length rest) (small : va < 2 ^ 39)
    (unmapped : bit v_bit (translation pt s va) ≡ false) where
  abbrev u : Kmem
  u = taken first last pt x rest s g h

  abbrev m : Bool × Kmem
  m = mappages pt (page_of va) pgsize x perm u

  abbrev now : HasRoot first last pt rest u
  now = taken-HasRoot first last pt x rest s g h

  same_page : (w : ℕ) → page_of va ≤ w → w < page_of va + pgsize → SamePage w va
  same_page w lo hi = omega arith

  mapped : Mapped first last pt (page_of va) pgsize x perm now.level rest u m
  mapped =
      mappages-Mapped first last pt (page_of va) pgsize x perm rest u now (omega arith)
        (omega arith) (omega arith)
        (λ w lo hi.
          ap (bit v_bit) (
            translation-SamePage pt u w va (same_page w lo hi)
            ∙ translation-taken first last pt x rest s g h va)
          ∙ unmapped)

  entered-Faulted : Faulted first last pt x va perm g h.level (x ∷ rest) s m.1
  entered-Faulted =
      let data_page = mapped.kept x (taken-IsData first last pt x rest s g h) in
      record {
        free' = mapped.free';
        root = mapped.root;
        translated =
            mapped.mapped va (omega arith) (omega arith) ∙ ap (λ p. entry_of p perm) (omega arith);
        others = λ y off.
            mapped.others y (λ w lo hi e. off (sym (same_page w lo hi) ∙ e))
            ∙ translation-taken first last pt x rest s g h y;
        contents = λ b inside. data_page.1 b inside ∙ filled-In g x b (take_first s) inside;
        page = data_page.0;
        kept = λ y d.
            let (d', same) = taken_kept first last pt x rest s g h y d in
            let (d'', same') = mapped.kept y d' in
            (d'', λ b inside. same' b inside ∙ same b inside);
      }

  fault_page_lem :
      (fill_page : ℕ → Kmem → Kmem)
      → fill_page x (take_first s) ≡ u
      → fault_page fill_page pt (page_of va) perm s ≡ (true, m.1)
  unfolding fault_page uvm_map
  fault_page_lem fill_page e =
      let there : (x == 0) ≡ false = ground (arith, h.tree.heap.chain.1) in
      rw (kalloc-cons first last x rest s h.tree.heap, there, e, mapped.ok) refl

  -- A page that is filled with `g` and mapped.
  faulted :
      (fill_page : ℕ → Kmem → Kmem)
      → fill_page x (take_first s) ≡ u
      → (t : Kmem) × (fault_page fill_page pt (page_of va) perm s ≡ (true, t))
        × Faulted first last pt x va perm g h.level (x ∷ rest) s t
  faulted fill_page e = (m.1, fault_page_lem fill_page e, entered-Faulted)

-- the words of the page `x` with the bytes of a mapped file that belong at `a`, and 0 behind its end
abbrev pub file_words : Fs → Kernel → ℕ → ℕ → ℕ → ℕ → ℕ
file_words fs k i a x b =
    let p = k.proctable i in
    let byte = λ (j : ℕ).
      if ltb j pgsize
      then file_byte fs.disk.image p.mmap_start p.mmap_size (a - p.mmap_base + j)
      else 0 in
    le_bytes 8 byte (b - x)

-- the words that fs_read_page gives
abbrev read_words : Fs → Kernel → ℕ → ℕ → ℕ → ℕ → ℕ
read_words fs k i a x b =
    let p = k.proctable i in
    let bytes = fs_read_page fs.disk p.mmap_start p.mmap_size ((a - p.mmap_base) % 2 ^ 32) in
    le_bytes 8 (λ o. get_or bytes o 0) (b - x)

-- A file of at most 2 ^ 31 bytes that is mapped at a page, and whose block numbers have 32 bits.
pub record MapsFile (p : Proc) : Type 0 where
  pub based : 0 < p.mmap_base
  pub aligned : p.mmap_base % pgsize ≡ 0
  pub small : p.mmap_size ≤ 2 ^ 31
  pub blocks : p.mmap_start + p.mmap_size / 512 + 8 < 2 ^ 32

read_words-file_words :
    (fs : Fs) (k : Kernel) (i a x : ℕ)
    → MapsFile (k.proctable i)
    → a % pgsize ≡ 0
    → (k.proctable i).mmap_base ≤ a
    → a < mmap_end (k.proctable i)
    → read_words fs k i a x ≡ file_words fs k i a x
read_words-file_words fs k i a x maps page lo hi =
    let p = k.proctable i in
    let word : (a - p.mmap_base) % 2 ^ 32 ≡ a - p.mmap_base = omega (arith, maps.small) in
    ap {B = ℕ → ℕ} (λ (byte : ℕ → ℕ) b. le_bytes 8 byte (b - x))
      (fun_ext (λ j. rw word (
        fs_read_page-file_byte fs.disk p.mmap_start p.mmap_size (a - p.mmap_base) j
          (omega (arith, maps.aligned)) (omega (arith, maps.small))
          (omega (arith, maps.small, maps.blocks, maps.aligned)))))

-- A user process in the slot `i` faults, by a load or a store, at an address below 2 ^ 39 whose page is not mapped,
-- while three pages are free.
module _ (first last i x va : ℕ) (rest : List ℕ) (store : Bool) (fs : Fs) (k : Kernel)
    (user : (k.proctable i).is_user ≡ true)
    (h : HasRoot first last (k.proctable i).pagetable (x ∷ rest) k.kmem) (enough : 2 ≤ length rest)
    (small : va < 2 ^ 39)
    (unmapped : bit v_bit (translation (k.proctable i).pagetable k.kmem va) ≡ false) where
  abbrev pt : ℕ
  pt = (k.proctable i).pagetable

  abbrev a : ℕ
  a = page_of va

  not_shared : uvm_cow_fault pt a k.kmem ≡ (false, k.kmem)
  not_shared =
      cow_unmapped first last pt a (x ∷ rest) k.kmem h
        (ap (bit v_bit) (translation-SamePage pt k.kmem a va (omega arith)) ∙ unmapped)
        (omega arith)

  -- What the fault made of the kernel: it is resolved, with that page at the address.
  pub record Resolved (perm : ℕ) (g : ℕ → ℕ) (r : Bool × Kernel) : Type 0 where
    pub t : Kmem
    pub resolved : r ≡ (true, record k { kmem = t })
    pub memory : Faulted first last pt x va perm g h.level (x ∷ rest) k.kmem t

  abbrev file : ℕ → ℕ → Kmem → Kmem
  file o =
      byte_page
        (fs_read_page fs.disk (k.proctable i).mmap_start (k.proctable i).mmap_size (o % 2 ^ 32))

  -- After the test for a shared page nothing has changed.
  abbrev unshared : Bool × Kernel
  unshared =
      if leb heapbase a && ltb a (k.proctable i).heap_top
      then with_memory k (fault_page zero_page pt a perm_rwu k.kmem)
      else if not ((k.proctable i).mmap_base == 0)
          && leb (k.proctable i).mmap_base a
          && ltb a (mmap_end (k.proctable i))
      then with_memory k (fault_page (file (a - (k.proctable i).mmap_base)) pt a perm_ru k.kmem)
      else (false, k)

  proc_pagefault-unshared : proc_pagefault (some i) va store fs k ≡ unshared
  unfolding proc_pagefault
  proc_pagefault-unshared = elim (Bool-cases store) [
    | inl stores ↦ rw (user, stores, not_shared) refl
    | inr loads ↦ rw (user, loads) refl
  ]

  -- A user process faults, by a load or a store, at an address below 2 ^ 39 of its heap whose page is not mapped,
  -- while three pages are free: the fault is resolved with a page of zeros, for reading and writing. Nothing but
  -- the memory changes: the page is at the address, all other pages are translated as before, and the pages in
  -- use hold what they held.
  pub heap_fault-Resolved :
      heapbase ≤ a
      → a < (k.proctable i).heap_top
      → Resolved perm_rwu (λ b. 0) (proc_pagefault (some i) va store fs k)
  unfolding zero_page
  heap_fault-Resolved lo hi =
      let (t, e, f) =
        faulted first last pt x va perm_rwu rest k.kmem (λ b. 0) h enough small unmapped zero_page
          refl in
      let in_heap : (leb heapbase a && ltb a (k.proctable i).heap_top) ≡ true = ground arith in
      record { t = t; resolved = proc_pagefault-unshared ∙ rw (in_heap, e) refl; memory = f }

  -- A user process faults, by a load or a store, at an address below 2 ^ 39 of a file that it mapped, behind its
  -- heap, whose page is not mapped, while three pages are free. The file has at most 2 ^ 31 bytes, is mapped at the
  -- start of a page, and its block numbers have 32 bits. The fault is resolved with a page for reading only. Byte
  -- `j` of it is the byte of the file that is `j` bytes behind the offset of the page in the mapping, where byte `q`
  -- of the file is byte `q % 512` of the block `q / 512` behind its first; behind the end of the file it is 0.
  -- Nothing but the memory changes: the page is at the address, all other pages are translated as before, and
  -- the pages in use hold what they held.
  pub file_fault-Resolved :
      (k.proctable i).heap_top ≤ a
      → MapsFile (k.proctable i)
      → (k.proctable i).mmap_base ≤ a
      → a < mmap_end (k.proctable i)
      → Resolved perm_ru (file_words fs k i a x) (proc_pagefault (some i) va store fs k)
  file_fault-Resolved out maps lo hi =
      let (t, e, f) =
        faulted first last pt x va perm_ru rest k.kmem (read_words fs k i a x) h enough small
          unmapped (file (a - (k.proctable i).mmap_base)) refl in
      let words = read_words-file_words fs k i a x maps (omega arith) lo hi in
      let pos = maps.based in
      let no_heap : (leb heapbase a && ltb a (k.proctable i).heap_top) ≡ false = ground arith in
      let in_file : (not ((k.proctable i).mmap_base == 0)
            && leb (k.proctable i).mmap_base a
            && ltb a (mmap_end (k.proctable i)))
          ≡ true =
        ground arith in
      record {
        t = t;
        resolved = proc_pagefault-unshared ∙ rw (no_heap, in_file, e) refl;
        memory =
            subst (λ g. Faulted first last pt x va perm_ru g h.level (x ∷ rest) k.kmem t) words f;
      }
