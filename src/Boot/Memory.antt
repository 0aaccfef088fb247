-- ===== src/Boot/Memory.antt =====
-- src/main.c: the allocator, the table of the kernel and paging come up together.
use kernel_hobby.Base.{
  ℕ, zero, suc, ◌+◌, ◌-◌, ◌*◌, ◌/◌, ◌%◌, ◌≤◌, ◌<◌, ◌≡◌, refl, some, List, [], ◌∷◌, arith, length,
  update_self, ◌>>=◌,
}
use kernel_hobby.Kalloc.{kinit, pgroundup, pgsize, phystop, rambase}
use kernel_hobby.Kalloc.Init.{at_boot, pages_from, kinit-IsHeap}
use kernel_hobby.Vm.{satp_for}
use kernel_hobby.Vm.Tree.Kernel.{HasRegions, kernel_regions, kvminit-KernelTable}
use kernel_hobby.Hart.{kvminithart}
use kernel_hobby.Boot.{Board, System, start_memory, paging_on}

length-pages_from : (n p : ℕ) (free : List ℕ) → length (pages_from n p free) ≡ n + length free
length-pages_from zero p free = omega arith
length-pages_from (suc n) p free = omega (arith, length-pages_from n (p + pgsize) (p ∷ free))

module _ {D E P : Type 0} (board : Board D E P) (id : ℕ) where
  -- Paging is on, with a table that translates the regions of the kernel to themselves and nothing else, and the
  -- allocator has the free pages `free`.
  pub record PagingOn (free : List ℕ) (s : System D E P) : Type 0 where
    pub regions :
        HasRegions
          (pgroundup board.end)
          phystop
          s.kernel.kernel_pagetable
          (kernel_regions board.etext)
          free
          s.kernel.kmem
    pub satp : (s.harts id).satp ≡ satp_for s.kernel.kernel_pagetable

  abbrev first_free : List ℕ
  first_free = pages_from ((phystop - pgroundup board.end) / pgsize) (pgroundup board.end) []

  first_free_many : rambase ≤ board.end → board.end + 142 * 4096 ≤ phystop → 141 ≤ length first_free
  unfolding pgroundup
  first_free_many low high =
      omega (
        arith,
        length-pages_from ((phystop - pgroundup board.end) / pgsize) (pgroundup board.end) [],
      )

  -- For a kernel whose code ends at the start of a page, with room for 142 pages behind its end, and whatever the
  -- memory holds at first: the start of the memory comes to its end, the allocator is well-formed, and the
  -- hart uses a table that translates the devices and the memory from the kernel on to themselves, with
  -- the code read-only and nothing else executable, and no other address below 2 ^ 39.
  pub start_memory-PagingOn :
      (s : System D E P) (memory : ℕ → ℕ)
      → s.kernel.kmem ≡ at_boot memory
      → 0x80200000 < board.etext
      → board.etext < phystop
      → board.etext % 4096 ≡ 0
      → rambase ≤ board.end
      → board.end + 142 * 4096 ≤ phystop
      → (s' : System D E P) × (free : List ℕ) × (start_memory board id s ≡ some s')
        × PagingOn free s'
  unfolding start_memory kvminithart
  start_memory-PagingOn s memory e lo hi page low high =
      let heap = kinit-IsHeap board.end memory low (omega arith) in
      let k =
        kvminit-KernelTable (pgroundup board.end) phystop board.etext first_free
          (kinit board.end (at_boot memory)) heap lo hi page (first_free_many low high) in
      (
        paging_on board id s (k.pt, k.t),
        k.free',
        rw (e, k.done, ◌>>=◌) refl,
        record { regions = k.regions; satp = rw (update_self s.harts id _) refl },
      )
