-- ===== src/Vm.antt =====
-- src/vm.c and src/vm.h, the Sv39 page tables. They are words of the memory that the page allocator
-- holds; a page table is the address of its page, and 0 is the null pointer. What the code prints, and
-- the flushes of the TLB, are left out.
pub mod Pte
pub mod Cow
pub mod Tree
mod Tests
use kernel_hobby.Base.{
  ℕ, zero, suc, ◌+◌, ◌-◌, ◌*◌, ◌/◌, ◌%◌, ◌^◌, Bool, true, false, not, Option, none, some, ◌&&◌,
  ◌||◌, update, ltb, leb, ◌==◌, if◌then◌else◌, ◌>>=◌,
}
use kernel_hobby.Kalloc.{Kmem, pgsize, phystop, kalloc, kfree, kref_inc}

-- `n & (1 << k)`, as a test
abbrev pub bit : ℕ → ℕ → Bool
bit k n = n / 2 ^ k % 2 == 1

-- `n | (1 << k)` and `n & ~(1 << k)`
abbrev pub with_bit : ℕ → ℕ → ℕ
with_bit k n = if bit k n then n else n + 2 ^ k

abbrev pub without_bit : ℕ → ℕ → ℕ
without_bit k n = if bit k n then n - 2 ^ k else n

-- the numbers of the bits PTE_V, PTE_W and PTE_COW, and sums of PTE_R, PTE_W, PTE_X, PTE_U
abbrev pub v_bit : ℕ
v_bit = 0

abbrev pub w_bit : ℕ
w_bit = 2

abbrev pub cow_bit : ℕ
cow_bit = 8

abbrev pub perm_rw : ℕ
perm_rw = 6

abbrev pub perm_rx : ℕ
perm_rx = 10

abbrev pub perm_ru : ℕ
perm_ru = 18

abbrev pub perm_rwu : ℕ
perm_rwu = 22

abbrev pub perm_rxu : ℕ
perm_rxu = 26

abbrev pub userva : ℕ
userva = 0x1000

abbrev pub userstack : ℕ
userstack = 0x4000

abbrev pub userstacktop : ℕ
userstacktop = userstack + 4096

abbrev pub heapbase : ℕ
heapbase = 0x10000

abbrev pub mmapbase : ℕ
mmapbase = 0x100000

unfoldable pub pa2pte : ℕ → ℕ
pa2pte pa = pa / 4096 * 1024

unfoldable pub pte2pa : ℕ → ℕ
pte2pa pte = pte / 1024 * 4096 % 2 ^ 64

-- `PTE_FLAGS`
unfoldable pub pte_flags : ℕ → ℕ
pte_flags pte = pte % 1024

unfoldable pub px : ℕ → ℕ → ℕ
px level va = va / 2 ^ (12 + 9 * level) % 512

abbrev pub pgrounddown : ℕ → ℕ
pgrounddown a = a / pgsize * pgsize

unfoldable pub satp_for : ℕ → ℕ
satp_for pt = 2 ^ 63 + pt / 4096

-- a word written to the memory
abbrev pub store : ℕ → ℕ → Kmem → Kmem
store a v s = record s { mem = update s.mem a v }

-- `memset(page, 0, PGSIZE)`
unfoldable pub zero_page : ℕ → Kmem → Kmem
zero_page a s = record s { mem = λ x. if leb a x && ltb x (a + pgsize) then 0 else s.mem x }

-- `memcopy(dst, src, PGSIZE)`, for two pages that do not overlap
unfoldable pub copy_page : ℕ → ℕ → Kmem → Kmem
copy_page dst src s = record s {
  mem = λ x. if leb dst x && ltb x (dst + pgsize) then s.mem (src + (x - dst)) else s.mem x;
}

-- the loop of `walk` from a level down
unfoldable pub walk_from : ℕ → ℕ → ℕ → Bool → Kmem → ℕ × Kmem
walk_from zero pt va alloc s = (pt + px 0 va * 8, s)
walk_from (suc level) pt va alloc s =
    let pte = pt + px (suc level) va * 8 in
    let entry = s.mem pte in
    if bit v_bit entry
    then walk_from level (pte2pa entry) va alloc s
    else if not alloc
    then (0, s)
    else let (table, t) = kalloc s in
      if table == 0
      then (0, t)
      else walk_from level table va alloc (store pte (pa2pte table + 1) (zero_page table t))

abbrev pub walk : ℕ → ℕ → Bool → Kmem → ℕ × Kmem
walk pt va alloc s = walk_from 2 pt va alloc s

-- One round of the loop of `mappages`. In `PA2PTE(pa) | perm` the low ten bits are those of `perm`,
-- which is less than 1024.
unfoldable pub map_page : ℕ → ℕ → ℕ → ℕ → Kmem → Bool × Kmem
map_page pt a pa perm s =
    let (pte, t) = walk pt a true s in
    if pte == 0 || bit v_bit (t.mem pte)
    then (false, t)
    else (true, store pte (with_bit v_bit (pa2pte pa + perm)) t)

-- the loop, with `n` more pages after the one at `a`: it ends at `a == last`
unfoldable pub map_from : ℕ → ℕ → ℕ → ℕ → ℕ → Kmem → Bool × Kmem
map_from zero pt a pa perm s = map_page pt a pa perm s
map_from (suc n) pt a pa perm s =
    let (ok, t) = map_page pt a pa perm s in
    let rest = map_from n pt (a + pgsize) (pa + pgsize) perm t in if ok then rest else (false, t)

-- `mappages`: true for 0, false for -1. The sums wrap around, so that a size of 0 at the start of a page makes the loop
-- go on through the address space.
unfoldable pub mappages : ℕ → ℕ → ℕ → ℕ → ℕ → Kmem → Bool × Kmem
mappages pt va size pa perm s =
    let last = pgrounddown ((va + size + 2 ^ 64 - 1) % 2 ^ 64) in
    map_from ((last + 2 ^ 64 - pgrounddown va) % 2 ^ 64 / pgsize) pt (pgrounddown va) pa perm s

-- `kvmmap`: where the code stops in an endless loop, the result is none.
unfoldable pub kvmmap : ℕ → ℕ → ℕ → ℕ → ℕ → Kmem → Option Kmem
kvmmap kpt va pa sz perm s =
    let (ok, t) = mappages kpt va sz pa perm s in if ok then some t else none

-- `etext` is where the linker puts the end of the kernel's code.
unfoldable pub map_kernel : ℕ → ℕ → Kmem → Option Kmem
map_kernel etext pt s = do
  s1 ← kvmmap pt 0x10000000 0x10000000 pgsize perm_rw s
  s2 ← kvmmap pt 0x10001000 0x10001000 0x8000 perm_rw s1
  s3 ← kvmmap pt 0x0c000000 0x0c000000 0x400000 perm_rw s2
  s4 ← kvmmap pt 0x80200000 0x80200000 (etext - 0x80200000) perm_rx s3
  kvmmap pt etext etext (phystop - etext) perm_rw s4

-- The result has `kernel_pagetable`.
unfoldable pub kvminit : ℕ → Kmem → Option (ℕ × Kmem)
kvminit etext s =
    let (pt, t) = kalloc s in do u ← map_kernel etext pt (zero_page pt t); some (pt, u)

unfoldable pub remap_user_code : ℕ → ℕ → Kmem → Kmem
remap_user_code pt newcode s =
    let (pte, t) = walk pt userva false s in
    if pte == 0 then t else store pte (pa2pte newcode + perm_rxu + 1) t

-- the entries of a table from `i` on, `n` of them; `sub` frees a table one level down
unfoldable pub free_entries : (ℕ → Kmem → Kmem) → ℕ → ℕ → ℕ → Kmem → Kmem
free_entries sub zero pt i s = s
free_entries sub (suc n) pt i s =
    let pte = s.mem (pt + i * 8) in
    let inner = bit v_bit pte && not (bit 1 pte) && not (bit 2 pte) && not (bit 3 pte) in
    free_entries sub n pt (suc i) (if inner then store (pt + i * 8) 0 (sub (pte2pa pte) s) else s)

-- `freewalk` of a table with at most `depth` levels
unfoldable pub freewalk : ℕ → ℕ → Kmem → Kmem
freewalk zero pt s = s
freewalk (suc depth) pt s = kfree pt (free_entries (freewalk depth) 512 pt 0 s)

-- A table of Sv39 has three levels.
abbrev pub free_pagetable : ℕ → Kmem → Kmem
free_pagetable pt s = freewalk 3 pt s

unfoldable pub uvm_map : ℕ → ℕ → ℕ → ℕ → Kmem → Bool × Kmem
uvm_map pt va pa perm s = mappages pt va pgsize pa perm s

-- the rounds of a loop `for (a = start; a < end; a += PGSIZE)`
abbrev pub rounds : ℕ → ℕ → ℕ
rounds start end = (end - start + 4095) / 4096

-- the loop of `vm_free_range`, with `n` rounds left
unfoldable pub free_range_from : ℕ → ℕ → ℕ → Kmem → Kmem
free_range_from zero pt a s = s
free_range_from (suc n) pt a s =
    let (pte, t) = walk pt a false s in
    free_range_from n pt (a + pgsize) (
      if not (pte == 0) && bit v_bit (t.mem pte)
      then store pte 0 (kfree (pte2pa (t.mem pte)) t)
      else t)

unfoldable pub vm_free_range : ℕ → ℕ → ℕ → Kmem → Kmem
vm_free_range pt start end s = free_range_from (rounds start end) pt start s

-- the flags of a page that two address spaces share
unfoldable pub shared_flags : ℕ → ℕ
shared_flags flags = if bit w_bit flags then with_bit cow_bit (without_bit w_bit flags) else flags

-- the loop of `uvm_cow_share`, with `n` rounds left: true for 0, false for -1
unfoldable pub cow_share_from : ℕ → ℕ → ℕ → ℕ → Kmem → Bool × Kmem
cow_share_from zero parent child a s = (true, s)
cow_share_from (suc n) parent child a s =
    let (pte, t) = walk parent a false s in
    let entry = t.mem pte in
    let flags = shared_flags (pte_flags entry) in
    let marked = if bit w_bit entry then store pte (pa2pte (pte2pa entry) + flags) t else t in
    let (ok, u) = mappages child a pgsize (pte2pa entry) flags marked in
    let skipped = pte == 0 || not (bit v_bit entry) in
    if not skipped && not ok
    then (false, u)
    else cow_share_from n parent child (a + pgsize)
        (if skipped then t else kref_inc (pte2pa entry) u)

unfoldable pub uvm_cow_share : ℕ → ℕ → ℕ → ℕ → Kmem → Bool × Kmem
uvm_cow_share parent child start end s = cow_share_from (rounds start end) parent child start s

-- `PTE_FLAGS` after the copy: writable, and not shared
unfoldable pub own_flags : ℕ → ℕ
own_flags flags = with_bit w_bit (without_bit cow_bit flags)

-- `uvm_cow_fault`: true for 1, false for 0
unfoldable pub uvm_cow_fault : ℕ → ℕ → Kmem → Bool × Kmem
uvm_cow_fault pt va s =
    let pte = (walk pt (pgrounddown va) false s).0 in
    let entry = s.mem pte in
    if pte == 0 || not (bit v_bit entry) || not (bit cow_bit entry)
    then (false, s)
    else let (fresh, t) = kalloc s in
      if fresh == 0
      then (false, t)
      else let u = copy_page fresh (pte2pa entry) t in
        (
          true,
          kfree (pte2pa entry) (store pte (pa2pte fresh + own_flags (pte_flags (u.mem pte))) u),
        )

-- A page table without memory is 0. The results of the last two `mappages` are not looked at.
unfoldable pub proc_pagetable : ℕ → ℕ → ℕ → Kmem → Option (ℕ × Kmem)
proc_pagetable etext ucode ustack s =
    let (pt, t) = kalloc s in
    if pt == 0 then some (0, t) else do
      u ← map_kernel etext pt (zero_page pt t)
      some (
        pt,
        (mappages pt userstack pgsize ustack perm_rwu
            (mappages pt userva pgsize ucode perm_rxu u).1).1,
      )

-- `kvm_map`, with `kernel_pagetable` as an argument
unfoldable pub kvm_map : ℕ → ℕ → ℕ → ℕ → ℕ → Kmem → Option Kmem
kvm_map kernel_pagetable va pa sz perm s = kvmmap kernel_pagetable va pa sz perm s
