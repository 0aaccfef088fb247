-- ===== src/Elf/Bounds.antt =====
-- src/elf.c: which images the loader keeps within the page.
use kernel_hobby.Base.{
  ℕ, zero, suc, ◌+◌, ◌-◌, ◌%◌, ◌^◌, ◌≤◌, ◌<◌, ◌≡◌, refl, ◌∙◌, inl, inr, false, arith, ltb, ◌==◌,
  Bool-cases,
}
use kernel_hobby.Elf.{Phdr, phdr, read_ehdr, copyb, load_from, load_elf, has_magic}

-- A segment that starts at or after USERVA, with no more bytes in the file than in memory, whose size is
-- not near 2 ^ 64.
pub record IsSegment (ph : Phdr) : Type 0 where
  pub start : 0x1000 ≤ ph.vaddr
  pub stored : ph.filesz ≤ ph.memsz
  pub low : ph.vaddr < 2 ^ 63
  pub short : ph.memsz < 2 ^ 62

-- An address outside the page.
abbrev pub Outside : ℕ → ℕ → Type 0
Outside codepage a = (a < 2 ^ 64) × (¬ ((codepage ≤ a) × (a < codepage + 4096)))

copyb-Outside :
    (codepage off n src a : ℕ) (img mem : ℕ → ℕ)
    → codepage + 4096 ≤ 2 ^ 63
    → off + n ≤ 4096
    → Outside codepage a
    → copyb ((codepage + off) % 2 ^ 64) img src n mem a ≡ mem a
unfolding copyb
copyb-Outside codepage off n src a img mem page fits out =
    let far : ltb ((a + 2 ^ 64 - (codepage + off) % 2 ^ 64) % 2 ^ 64) n ≡ false =
      ground (arith, page, fits, out) in
    rw far refl

load_from-Outside :
    (n : ℕ) (img : ℕ → ℕ) (codepage i : ℕ) (mem : ℕ → ℕ) (a : ℕ)
    → codepage + 4096 ≤ 2 ^ 63
    → ((j : ℕ) → i ≤ j → j < i + n → (phdr img j).kind ≡ 1 → IsSegment (phdr img j))
    → Outside codepage a
    → (load_from n img codepage i mem).1 a ≡ mem a
unfolding load_from
load_from-Outside zero img codepage i mem a page ok out = refl
load_from-Outside (suc n) img codepage i mem a page ok out =
    let ph = phdr img i in
    let off = (ph.vaddr + 2 ^ 64 - 0x1000) % 2 ^ 64 in
    let later : (m : ℕ → ℕ) → (load_from n img codepage (suc i) m).1 a ≡ m a = λ m.
      load_from-Outside n img codepage (suc i) m a page (λ j x y. ok j (omega arith) (omega arith))
        out in
    elim (Bool-cases (ph.kind == 1)) [
      | inr other ↦ rw (load_from, other) (later mem)
      | inl load ↦
          let seg = ok i (omega arith) (omega arith) (ground (arith, load)) in
          elim (Bool-cases (ltb 4096 ((off + ph.memsz) % 2 ^ 64))) [
            | inl big ↦ rw (load_from, load, big) refl
            | inr fits ↦
                let small : off + ph.filesz ≤ 4096 =
                  ground (arith, fits, seg.start, seg.stored, seg.low, seg.short) in
                rw (load_from, load, fits)
                  (later (copyb ((codepage + off) % 2 ^ 64) img ph.offset ph.filesz mem)
                    ∙ copyb-Outside codepage off ph.filesz ph.offset a img mem page small out)
          ]
    ]

-- `load_elf` of an image in which each segment to load starts at or after USERVA and has no more bytes in
-- the file than in memory, with sizes far from 2 ^ 64, changes no byte outside the page, whether it
-- succeeds or not.
pub load_elf-Outside :
    (img : ℕ → ℕ) (codepage : ℕ) (mem : ℕ → ℕ) (a : ℕ)
    → codepage + 4096 ≤ 2 ^ 63
    → ((j : ℕ) → j < (read_ehdr img).phnum → (phdr img j).kind ≡ 1 → IsSegment (phdr img j))
    → Outside codepage a
    → (load_elf img codepage mem).1 a ≡ mem a
unfolding load_elf
load_elf-Outside img codepage mem a page ok out = elim (Bool-cases (has_magic img)) [
  | inl elf ↦
      rw (load_elf, elf)
        (load_from-Outside (read_ehdr img).phnum img codepage 0 mem a page
          (λ j x y. ok j (omega arith)) out)
  | inr other ↦ rw (load_elf, other) refl
]
