-- ===== src/Vm/Tree/Ranges.antt =====
-- src/vm.c: mappages over a range.
use kernel_hobby.Base.{
  ℕ, zero, suc, ◌+◌, ◌-◌, ◌*◌, ◌/◌, ◌%◌, ◌^◌, ◌≤◌, ◌<◌, ◌≡◌, refl, sym, ◌∙◌, ap, true, false, Bool,
  List, arith, length, inl, subst,
}
use kernel_hobby.Kalloc.{Kmem, pgsize}
use kernel_hobby.Vm.{bit, v_bit, map_from, mappages, pgrounddown}
use kernel_hobby.Vm.Tree.{IsData, Kept}
use kernel_hobby.Vm.Tree.Loop.{regions, map_from-Entered}
use kernel_hobby.Vm.Tree.Leaf.{SamePage}
use kernel_hobby.Vm.Tree.Maps.{HasRoot, translation, entry_of, translation-SamePage}

-- how many pieces of 2 MiB the bytes from `va` on touch
abbrev pub pieces : ℕ → ℕ → ℕ
pieces va size = (va + size - 1) / 2 ^ 21 - va / 2 ^ 21 + 1

-- What a call made of `s` that entered the range of `size` bytes from `va` on, for the pages from `pa` on: it
-- returns 0, every address of the range is translated by an entry for its page, all other pages are
-- translated as before, the tables make a tree, at most two pages for each piece were taken, and the pages of
-- data hold what they held.
pub record Mapped (first last pt va size pa perm : ℕ) (level : ℕ → ℕ) (free : List ℕ) (s : Kmem)
    (r : Bool × Kmem) : Type 0 where
  pub ok : r.0 ≡ true
  pub free' : List ℕ
  pub root : HasRoot first last pt free' r.1
  pub mapped :
      (x : ℕ)
      → va ≤ x
      → x < va + size
      → translation pt r.1 x ≡ entry_of (pa + (x / 4096 - va / 4096) * 4096) perm
  pub others :
      (y : ℕ)
      → ((x : ℕ) → va ≤ x → x < va + size → ¬ SamePage x y)
      → translation pt r.1 y ≡ translation pt s y
  pub taken : length free ≤ length free' + 2 * pieces va size
  pub kept : (y : ℕ) → IsData level free y → Kept root.level free' s r.1 y

-- how many pages the range has behind its first one
abbrev pub pages_behind : ℕ → ℕ → ℕ
pages_behind va size = (pgrounddown (va + size - 1) - pgrounddown va) / pgsize

-- Each page has an address of the range.
address_in :
    (va size k : ℕ)
    → 0 < size
    → k ≤ pages_behind va size
    → (x : ℕ) × (va ≤ x) × (x < va + size) × ((pgrounddown va + k * 4096) / 4096 ≡ x / 4096)
address_in va size zero pos le = (va, omega arith, omega arith, omega arith)
address_in va size (suc k) pos le = (pgrounddown va + suc k * 4096, omega arith, omega arith, refl)

regions-pieces :
    (va size : ℕ) → 0 < size → regions (pgrounddown va) (pages_behind va size) ≡ pieces va size
regions-pieces va size pos = omega arith

same_page : (a b : ℕ) → a / 4096 ≡ b / 4096 → SamePage a b
same_page a b e = ap (λ n. n % 2 ^ 27) e

-- `mappages` on a tree, for a range that is not empty and lies below 2 ^ 39, none of whose pages is mapped, with
-- two free pages for each piece of 2 MiB that the range touches: it returns 0. Then every address of the
-- range is translated by an entry for its page, with the flags given; the translations of all other pages are
-- as before; the tables make a tree again; it took no more than these pages, and the pages of data hold what they
-- held.
pub mappages-Mapped :
    (first last pt va size pa perm : ℕ) (free : List ℕ) (s : Kmem)
    → (h : HasRoot first last pt free s) → 0 < size
    → va + size ≤ 2 ^ 39
    → 2 * pieces va size ≤ length free
    → ((x : ℕ) → va ≤ x → x < va + size → bit v_bit (translation pt s x) ≡ false)
    → Mapped first last pt va size pa perm h.level free s (mappages pt va size pa perm s)
unfolding mappages
mappages-Mapped first last pt va size pa perm free s h pos small enough unmapped =
    let n = pages_behind va size in
    let a = pgrounddown va in
    let r = map_from n pt a pa perm s in
    let count : regions a n ≡ pieces va size = regions-pieces va size pos in
    let e =
      map_from-Entered first last pt n 0 a pa perm free s h (inl refl) (omega (arith, count))
        (omega arith)
        (λ k le.
          let (x, lo, hi, page) = address_in va size k pos le in
          ap (bit v_bit)
            (translation-SamePage pt s (a + k * 4096) x (same_page (a + k * 4096) x page))
          ∙ unmapped x lo hi) in
    let end = pgrounddown ((va + size + 2 ^ 64 - 1) % 2 ^ 64) in
    let same : n ≡ (end + 2 ^ 64 - a) % 2 ^ 64 / 4096 = omega arith in
    subst (λ n. Mapped first last pt va size pa perm h.level free s (map_from n pt a pa perm s))
      same
      record {
        ok = e.ok;
        free' = e.free';
        root = e.root;
        mapped = λ x lo hi.
            let k = x / 4096 - va / 4096 in
            translation-SamePage pt r.1 x (a + k * 4096) (same_page x (a + k * 4096) (omega arith))
            ∙ e.entered k (omega arith);
        others = λ y off. e.others y (λ k le z.
            let (x, lo, hi, page) = address_in va size k pos le in
            off x lo hi (sym (same_page (a + k * 4096) x page) ∙ z));
        taken = omega (arith, e.taken, count);
        kept = e.kept;
      }
