-- ===== src/Vm/Pte.antt =====
-- src/vm.c: what a page table entry says of its page.
use kernel_hobby.Base.{ℕ, ◌+◌, ◌%◌, ◌^◌, ◌<◌, ◌≡◌, true, false, arith}
use kernel_hobby.Vm.{bit, pa2pte, pte2pa, pte_flags, shared_flags, own_flags, v_bit, w_bit, cow_bit}

-- An entry that is made of the address of a page, below 2 ^ 56, and of flags gives them back.
pub pte_lem :
    (pa flags : ℕ)
    → pa % 4096 ≡ 0
    → pa < 2 ^ 56
    → flags < 1024
    → (pte2pa (pa2pte pa + flags) ≡ pa) × (pte_flags (pa2pte pa + flags) ≡ flags)
unfolding pa2pte pte2pa pte_flags
pte_lem pa flags aligned small few = omega arith

-- Sharing a writable page takes the right to write from it and marks it; the fault that copies it undoes
-- both. The other flags stay.
own_flags-shared_flags :
    (flags : ℕ)
    → flags < 1024
    → bit w_bit flags ≡ true
    → bit cow_bit flags ≡ false
    → (bit w_bit (shared_flags flags) ≡ false)
      × (bit cow_bit (shared_flags flags) ≡ true)
      × (bit v_bit (shared_flags flags) ≡ bit v_bit flags)
      × (own_flags (shared_flags flags) ≡ flags)
unfolding own_flags shared_flags
own_flags-shared_flags flags few w c = ground arith
