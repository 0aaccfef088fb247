-- ===== src/Kalloc.antt =====
-- src/kalloc.c, the page allocator: kinit, kalloc, kfree, kref_inc, kfreecount.
pub mod Heap
pub mod Laws
pub mod Init
mod Tests
use kernel_hobby.Base.{
  ℕ, zero, suc, ◌+◌, ◌-◌, ◌*◌, ◌/◌, ◌%◌, ◌^◌, update, ltb, leb, ◌==◌, if◌then◌else◌,
}

abbrev pub pgsize : ℕ
pgsize = 4096

abbrev pub phystop : ℕ
phystop = 0x88000000

abbrev pub rambase : ℕ
rambase = 0x80000000

abbrev pub npages : ℕ
npages = 32768

unfoldable pub pgroundup : ℕ → ℕ
pgroundup a = (a + 4095) % 2 ^ 64 / 4096 * 4096

-- The memory, as 64-bit words at their addresses (the first of a free page is its `next`), and the
-- static variables. A
-- call holds `kmem_lock` from its first to its last access, so that each is one step.
pub record Kmem : Type 0 where
  pub mem : ℕ → ℕ
  pub freelist : ℕ
  pub freecnt : ℕ
  pub refcnt : ℕ → ℕ

unfoldable pub refidx : ℕ → ℕ
refidx pa = (pa + 2 ^ 64 - rambase) % 2 ^ 64 / 4096 % 2 ^ 32

-- the end of `kfree`: the page goes to the front of the free list
unfoldable pub give_back : ℕ → Kmem → Kmem
give_back pa s = record {
  refcnt = update s.refcnt (refidx pa) 0;
  mem = update s.mem pa s.freelist;
  freelist = pa;
  freecnt = (s.freecnt + 1) % 2 ^ 64;
}

unfoldable pub kfree : ℕ → Kmem → Kmem
kfree pa s =
    let i = refidx pa in
    if ltb 1 (s.refcnt i)
    then record s { refcnt = update s.refcnt i (s.refcnt i - 1) }
    else give_back pa s

unfoldable pub kref_inc : ℕ → Kmem → Kmem
kref_inc pa s = record s { refcnt = update s.refcnt (refidx pa) ((s.refcnt (refidx pa) + 1) % 256) }

-- the loop of `kinit` from the address `p` on, with at most `n` rounds
unfoldable pub kinit_from : ℕ → ℕ → Kmem → Kmem
kinit_from zero p s = s
kinit_from (suc n) p s =
    let rest =
      kinit_from n (p + pgsize) (kfree p (record s { refcnt = update s.refcnt (refidx p) 1 })) in
    if leb (p + pgsize) phystop then rest else s

-- `end` is where the linker puts the end of the kernel.
unfoldable pub kinit : ℕ → Kmem → Kmem
kinit end s = kinit_from npages (pgroundup end) s

-- the branch of `kalloc` that takes the page at the front of the free list
unfoldable pub take_first : Kmem → Kmem
take_first s = record {
  mem = s.mem;
  freelist = s.mem s.freelist;
  freecnt = (s.freecnt + 2 ^ 64 - 1) % 2 ^ 64;
  refcnt = update s.refcnt (refidx s.freelist) 1;
}

-- The result is 0 if no page is left.
unfoldable pub kalloc : Kmem → ℕ × Kmem
kalloc s = if s.freelist == 0 then (0, s) else (s.freelist, take_first s)

abbrev pub kfreecount : Kmem → ℕ
kfreecount s = s.freecnt
