-- ===== src/Vm/Tree/Tests.antt =====
-- A page entered into an empty table of src/vm.c.
use kernel_hobby.Base.{ℕ, ap, List, [], ◌∷◌, arith}
use kernel_hobby.Kalloc.{Kmem, kinit, pgroundup, phystop, take_first}
use kernel_hobby.Kalloc.Heap.{IsHeap}
use kernel_hobby.Kalloc.Init.{at_boot, kinit-IsHeap}
use kernel_hobby.Vm.{bit, v_bit, zero_page, mappages}
use kernel_hobby.Vm.Tree.Maps.{HasRoot}
use kernel_hobby.Vm.Tree.Ranges.{Mapped, mappages-Mapped}
use kernel_hobby.Vm.Tree.Root.{fresh-HasRoot, fresh-translation}

-- four pages at the end of the memory
abbrev four : List ℕ
four = 0x87FFF000 ∷ 0x87FFE000 ∷ 0x87FFD000 ∷ 0x87FFC000 ∷ []

abbrev started : Kmem
started = kinit 0x87FFC000 (at_boot (λ a. 7))

started-IsHeap : IsHeap 0x87FFC000 phystop four started
unfolding pgroundup
started-IsHeap = kinit-IsHeap 0x87FFC000 (λ a. 7) (omega arith) (omega arith)

abbrev three : List ℕ
three = 0x87FFE000 ∷ 0x87FFD000 ∷ 0x87FFC000 ∷ []

abbrev empty_table : Kmem
empty_table = zero_page 0x87FFF000 (take_first started)

empty_table-HasRoot : HasRoot 0x87FFC000 phystop 0x87FFF000 three empty_table
empty_table-HasRoot = fresh-HasRoot 0x87FFC000 phystop 0x87FFF000 three started started-IsHeap

mappages-Mapped_example :
    Mapped 0x87FFC000 phystop 0x87FFF000 0x1000 5000 0x80300000 22 empty_table-HasRoot.level three
      empty_table
      (mappages 0x87FFF000 0x1000 5000 0x80300000 22 empty_table)
mappages-Mapped_example =
    mappages-Mapped 0x87FFC000 phystop 0x87FFF000 0x1000 5000 0x80300000 22 three empty_table
      empty_table-HasRoot (omega arith) (omega arith) (omega arith)
      (λ x lo hi.
        ap (bit v_bit)
          (fresh-translation 0x87FFC000 phystop 0x87FFF000 three started started-IsHeap x))
