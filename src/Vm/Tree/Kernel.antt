-- ===== src/Vm/Tree/Kernel.antt =====
-- src/vm.c: kvminit makes the table of the kernel.
use kernel_hobby.Base.{
  ℕ, ◌+◌, ◌-◌, ◌*◌, ◌/◌, ◌%◌, ◌^◌, ◌≤◌, ◌<◌, ◌≡◌, refl, ◌∙◌, ap, Bool, Option, some, List, [], ◌∷◌,
  arith, length, leb, ltb, ◌&&◌, if◌then◌else◌, Bool-cases, inl, inr, ◌>>=◌,
}
use kernel_hobby.Kalloc.{Kmem, pgsize, phystop, take_first}
use kernel_hobby.Kalloc.Heap.{IsHeap}
use kernel_hobby.Kalloc.Laws.{kalloc-cons}
use kernel_hobby.Vm.{bit, v_bit, perm_rw, perm_rx, mappages, kvmmap, map_kernel, kvminit, zero_page}
use kernel_hobby.Vm.Tree.Maps.{HasRoot, translation, entry_of}
use kernel_hobby.Vm.Tree.Ranges.{Mapped, pieces, mappages-Mapped}
use kernel_hobby.Vm.Tree.Root.{fresh-HasRoot, fresh-translation}

-- a range of addresses that stand for themselves, and what may be done there
pub record Region : Type 0 where
  pub va : ℕ
  pub size : ℕ
  pub perm : ℕ

abbrev pub lies_in : ℕ → Region → Bool
lies_in x r = leb r.va x && ltb x (r.va + r.size)

-- the entry of the page of `x`, and 0 outside of all regions
abbrev pub identity : List Region → ℕ → ℕ
identity [] x = 0
identity (r ∷ rs) x = if lies_in x r then entry_of (x / 4096 * 4096) r.perm else identity rs x

-- The table `pt` translates the regions to themselves, and nothing else.
pub record HasRegions (first last pt : ℕ) (rs : List Region) (free : List ℕ) (s : Kmem)
    : Type 0 where
  pub root : HasRoot first last pt free s
  pub translates : (x : ℕ) → x < 2 ^ 39 → translation pt s x ≡ identity rs x

-- What a call made that added a region: the tables for each of its pieces were taken.
pub record Added (first last pt : ℕ) (r : Region) (rs : List Region) (free : List ℕ) (s : Kmem)
    (o : Option Kmem) : Type 0 where
  pub t : Kmem
  pub free' : List ℕ
  pub done : o ≡ some t
  pub regions : HasRegions first last pt (r ∷ rs) free' t
  pub taken : length free ≤ length free' + 2 * pieces r.va r.size

module _ (first last pt : ℕ) (r : Region) (rs : List Region) (free : List ℕ) (s : Kmem)
    (h : HasRegions first last pt rs free s) (aligned : r.va % 4096 ≡ 0)
    (aligned_size : r.size % 4096 ≡ 0) (pos : 0 < r.size) (small : r.va + r.size ≤ 2 ^ 39)
    (enough : 2 * pieces r.va r.size ≤ length free)
    (apart : (x : ℕ) → r.va ≤ x → x < r.va + r.size → identity rs x ≡ 0) where
  abbrev call : Bool × Kmem
  call = mappages pt r.va r.size r.va r.perm s

  call-Mapped : Mapped first last pt r.va r.size r.va r.perm h.root.level free s call
  call-Mapped =
      mappages-Mapped first last pt r.va r.size r.va r.perm free s h.root pos small enough
        (λ x lo hi. ap (bit v_bit) (h.translates x (omega arith) ∙ apart x lo hi))

  translates_now : (x : ℕ) → x < 2 ^ 39 → translation pt call.1 x ≡ identity (r ∷ rs) x
  translates_now x lt = elim (Bool-cases (lies_in x r)) [
    | inl inside ↦
        let page : r.va + (x / 4096 - r.va / 4096) * 4096 ≡ x / 4096 * 4096 = ground arith in
        call-Mapped.mapped x (ground arith) (ground arith)
        ∙ ap (λ p. entry_of p r.perm) page
        ∙ rw inside refl
    | inr outside ↦
        call-Mapped.others x (λ y lo hi e. absurd (ground arith))
        ∙ h.translates x lt
        ∙ rw outside refl
  ]

  kvmmap-Added : Added first last pt r rs free s (kvmmap pt r.va r.va r.size r.perm s)
  unfolding kvmmap
  kvmmap-Added = record {
    t = call.1;
    free' = call-Mapped.free';
    done = rw call-Mapped.ok refl;
    regions = record { root = call-Mapped.root; translates = translates_now };
    taken = call-Mapped.taken;
  }

abbrev pub uart_region : Region
uart_region = record { va = 0x10000000; size = pgsize; perm = perm_rw }

abbrev pub virtio_region : Region
virtio_region = record { va = 0x10001000; size = 0x8000; perm = perm_rw }

abbrev pub plic_region : Region
plic_region = record { va = 0x0c000000; size = 0x400000; perm = perm_rw }

abbrev pub text_region : ℕ → Region
text_region etext = record { va = 0x80200000; size = etext - 0x80200000; perm = perm_rx }

abbrev pub ram_region : ℕ → Region
ram_region etext = record { va = etext; size = phystop - etext; perm = perm_rw }

abbrev pub kernel_regions : ℕ → List Region
kernel_regions etext =
    ram_region etext ∷ text_region etext ∷ plic_region ∷ virtio_region ∷ uart_region ∷ []

-- `map_kernel` on an empty table
module _ (first last pt etext : ℕ) (free : List ℕ) (s : Kmem)
    (h : HasRegions first last pt [] free s) (lo : 0x80200000 < etext) (hi : etext < phystop)
    (page : etext % 4096 ≡ 0) (enough : 140 ≤ length free) where
  added_uart :
      Added first last pt uart_region [] free s (kvmmap pt 0x10000000 0x10000000 pgsize perm_rw s)
  added_uart =
      kvmmap-Added first last pt uart_region [] free s h refl refl (omega arith) (omega arith)
        (omega arith) (λ x a b. refl)

  added_virtio :
      Added first last pt virtio_region
        (uart_region ∷ [])
        added_uart.free'
        added_uart.t
        (kvmmap pt 0x10001000 0x10001000 0x8000 perm_rw added_uart.t)
  added_virtio =
      kvmmap-Added first last pt virtio_region (uart_region ∷ []) added_uart.free' added_uart.t
        added_uart.regions refl refl (omega arith) (omega arith) (omega (arith, added_uart.taken))
        (λ x a b. ground arith)

  added_plic :
      Added first last pt plic_region
        (virtio_region ∷ uart_region ∷ [])
        added_virtio.free'
        added_virtio.t
        (kvmmap pt 0x0c000000 0x0c000000 0x400000 perm_rw added_virtio.t)
  added_plic =
      kvmmap-Added first last pt plic_region (virtio_region ∷ uart_region ∷ []) added_virtio.free'
        added_virtio.t added_virtio.regions refl refl (omega arith) (omega arith)
        (omega (arith, added_uart.taken, added_virtio.taken)) (λ x a b. ground arith)

  added_text :
      Added first last pt
        (text_region etext)
        (plic_region ∷ virtio_region ∷ uart_region ∷ [])
        added_plic.free'
        added_plic.t
        (kvmmap pt 0x80200000 0x80200000 (etext - 0x80200000) perm_rx added_plic.t)
  added_text =
      kvmmap-Added first last pt (text_region etext)
        (plic_region ∷ virtio_region ∷ uart_region ∷ []) added_plic.free' added_plic.t
        added_plic.regions refl (omega arith) (omega arith) (omega arith)
        (omega (arith, added_uart.taken, added_virtio.taken, added_plic.taken))
        (λ x a b. ground arith)

  added_ram :
      Added first last pt
        (ram_region etext)
        (text_region etext ∷ plic_region ∷ virtio_region ∷ uart_region ∷ [])
        added_text.free'
        added_text.t
        (kvmmap pt etext etext (phystop - etext) perm_rw added_text.t)
  added_ram =
      kvmmap-Added first last pt (ram_region etext)
        (text_region etext ∷ plic_region ∷ virtio_region ∷ uart_region ∷ []) added_text.free'
        added_text.t added_text.regions page (omega arith) (omega arith) (omega arith)
        (omega (arith, added_uart.taken, added_virtio.taken, added_plic.taken, added_text.taken))
        (λ x a b. ground arith)

  map_kernel_run : map_kernel etext pt s ≡ some added_ram.t
  unfolding map_kernel
  map_kernel_run =
      rw
        (
          added_uart.done, ◌>>=◌, added_virtio.done, ◌>>=◌, added_plic.done, ◌>>=◌, added_text.done,
          ◌>>=◌,
        )
        added_ram.done

  map_kernel_taken : length free ≤ length added_ram.free' + 140
  map_kernel_taken = omega (
    arith, added_uart.taken, added_virtio.taken, added_plic.taken, added_text.taken,
    added_ram.taken,
  )

-- what `kvminit` leaves: the root, the memory, and the table of the kernel there
pub record KernelTable (first last etext : ℕ) (free : List ℕ) (o : Option (ℕ × Kmem)) : Type 0 where
  pub pt : ℕ
  pub t : Kmem
  pub free' : List ℕ
  pub done : o ≡ some (pt, t)
  pub regions : HasRegions first last pt (kernel_regions etext) free' t
  pub taken : length free ≤ length free' + 141

-- `kvminit`, with 141 free pages and the end of the code at the start of a page between the start of the kernel
-- and the end of the memory, comes to its end: no `kvmmap` stops it. The table then translates each address
-- of the devices and of the memory from the kernel on to itself, the code without the right to write and
-- the rest without the right to execute, and no other address below 2 ^ 39; it took at most 141 pages.
pub kvminit-KernelTable :
    (first last etext : ℕ) (free : List ℕ) (s : Kmem)
    → IsHeap first last free s
    → 0x80200000 < etext
    → etext < phystop
    → etext % 4096 ≡ 0
    → 141 ≤ length free
    → KernelTable first last etext free (kvminit etext s)
unfolding kvminit
kvminit-KernelTable first last etext [] s h lo hi page enough = absurd (omega arith)
kvminit-KernelTable first last etext (x ∷ rest) s h lo hi page enough =
    let fresh = zero_page x (take_first s) in
    let empty : HasRegions first last x [] rest fresh = record {
      root = fresh-HasRoot first last x rest s h;
      translates = λ y lt. fresh-translation first last x rest s h y;
    } in
    let enough' : 140 ≤ length rest = omega arith in
    let ram = added_ram first last x etext rest fresh empty lo hi page enough' in
    record {
      pt = x;
      t = ram.t;
      free' = ram.free';
      done =
          rw
            (
              kalloc-cons first last x rest s h,
              map_kernel_run first last x etext rest fresh empty lo hi page enough',
              ◌>>=◌,
            )
            refl;
      regions = ram.regions;
      taken =
          omega (arith, map_kernel_taken first last x etext rest fresh empty lo hi page enough');
    }
