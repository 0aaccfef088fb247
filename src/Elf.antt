-- ===== src/Elf.antt =====
-- src/elf.c: the loader of a program whose segments fit in one page. The image and the memory are bytes at
-- their addresses; the image is apart from the page that is loaded.
pub mod Bounds
mod Tests
use kernel_hobby.Base.{
  ℕ, zero, suc, ◌+◌, ◌-◌, ◌*◌, ◌%◌, ◌^◌, Bool, true, false, not, ◌&&◌, ltb, ◌==◌, if◌then◌else◌,
}

-- the number of `n` bytes, the lowest first
unfoldable pub le_bytes : ℕ → (ℕ → ℕ) → ℕ → ℕ
le_bytes zero img a = 0
le_bytes (suc n) img a = img a + 256 * le_bytes n img (a + 1)

-- `e_entry`, `e_phoff`, `e_phentsize` and `e_phnum` of the header
pub record Ehdr : Type 0 where
  pub entry : ℕ
  pub phoff : ℕ
  pub phentsize : ℕ
  pub phnum : ℕ

unfoldable pub read_ehdr : (ℕ → ℕ) → Ehdr
read_ehdr img = record {
  entry = le_bytes 8 img 24;
  phoff = le_bytes 8 img 32;
  phentsize = le_bytes 2 img 54;
  phnum = le_bytes 2 img 56;
}

-- `p_type`, `p_offset`, `p_vaddr`, `p_filesz` and `p_memsz` of a program header
pub record Phdr : Type 0 where
  pub kind : ℕ
  pub offset : ℕ
  pub vaddr : ℕ
  pub filesz : ℕ
  pub memsz : ℕ

unfoldable pub read_phdr : (ℕ → ℕ) → ℕ → Phdr
read_phdr img a = record {
  kind = le_bytes 4 img a;
  offset = le_bytes 8 img (a + 8);
  vaddr = le_bytes 8 img (a + 16);
  filesz = le_bytes 8 img (a + 32);
  memsz = le_bytes 8 img (a + 40);
}

-- the program header `i`
abbrev pub phdr : (ℕ → ℕ) → ℕ → Phdr
phdr img i = read_phdr img ((read_ehdr img).phoff + i * (read_ehdr img).phentsize)

-- `copyb`: `n` bytes from the address `src` of the image to the address `dst`
unfoldable pub copyb : ℕ → (ℕ → ℕ) → ℕ → ℕ → (ℕ → ℕ) → ℕ → ℕ
copyb dst img src n mem a =
    let i = (a + 2 ^ 64 - dst) % 2 ^ 64 in if ltb i n then img (src + i) else mem a

abbrev pub has_magic : (ℕ → ℕ) → Bool
has_magic img = img 0 == 0x7F && img 1 == b'E' && img 2 == b'L' && img 3 == b'F'

-- the loop over the program headers from `i` on, `n` of them: true for 0, false for -1
unfoldable pub load_from : ℕ → (ℕ → ℕ) → ℕ → ℕ → (ℕ → ℕ) → Bool × (ℕ → ℕ)
load_from zero img codepage i mem = (true, mem)
load_from (suc n) img codepage i mem =
    let ph = phdr img i in
    let off = (ph.vaddr + 2 ^ 64 - 0x1000) % 2 ^ 64 in
    let loaded = copyb ((codepage + off) % 2 ^ 64) img ph.offset ph.filesz mem in
    let next = load_from n img codepage (suc i) (if ph.kind == 1 then loaded else mem) in
    if ph.kind == 1 && ltb 4096 ((off + ph.memsz) % 2 ^ 64) then (false, mem) else next

-- `load_elf`: the result, and the memory; `*entry` is `(read_ehdr img).entry` unless the magic is bad
unfoldable pub load_elf : (ℕ → ℕ) → ℕ → (ℕ → ℕ) → Bool × (ℕ → ℕ)
load_elf img codepage mem =
    if has_magic img then load_from (read_ehdr img).phnum img codepage 0 mem else (false, mem)
