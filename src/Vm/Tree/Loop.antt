-- ===== src/Vm/Tree/Loop.antt =====
-- src/vm.c: the loop of mappages, a page of the range each round.
use kernel_hobby.Base.{
  ℕ, zero, suc, ◌+◌, ◌-◌, ◌*◌, ◌/◌, ◌^◌, ◌≤◌, ◌<◌, ◌≡◌, ◌≢◌, refl, sym, ◌∙◌, ap, subst, true, false,
  Bool, List, arith, length, ◌==◌, ◌⊎◌, inl, inr, ℕ_discrete,
}
use kernel_hobby.Kalloc.{Kmem, pgsize}
use kernel_hobby.Vm.{px, bit, v_bit, walk_from, map_page, map_from, store}
use kernel_hobby.Vm.Tree.{IsTree, IsData, Kept, address_for}
use kernel_hobby.Vm.Tree.Leaf.{SamePage, same_tables}
use kernel_hobby.Vm.Tree.Maps.{
  HasRoot, translation, entry_of, walked-Walked, at_pte, stored-HasRoot, stored-Kept, stored_here,
  stored_other, stored_tables,
}

-- how many pieces of 2 MiB hold the `n + 1` pages from `a` on, each with its own table of the lowest level
abbrev pub regions : ℕ → ℕ → ℕ
regions a n = (a / 4096 + n) / 512 - a / 4096 / 512 + 1

-- `π` is 1 if the tables for `a` are known to be there.
abbrev pub Ready : ℕ → ℕ → ℕ → Kmem → Type 0
Ready π pt a s = (π ≡ 0) ⊎ ((π ≡ 1) × (address_for 2 pt a s.mem ≢ 0))

-- What a call made of `s` that entered the pages from `a` to `a + n * 4096`, for those from `pa` on: it returns
-- 0, these pages are translated, and all other translations are as before. At most two pages were taken for each new region.
pub record Entered (first last pt π n a pa perm : ℕ) (level : ℕ → ℕ) (free : List ℕ) (s : Kmem)
    (r : Bool × Kmem) : Type 0 where
  pub ok : r.0 ≡ true
  pub free' : List ℕ
  pub root : HasRoot first last pt free' r.1
  pub entered : (k : ℕ) → k ≤ n → translation pt r.1 (a + k * 4096) ≡ entry_of (pa + k * 4096) perm
  pub others :
      (va : ℕ)
      → ((k : ℕ) → k ≤ n → ¬ SamePage (a + k * 4096) va)
      → translation pt r.1 va ≡ translation pt s va
  pub taken : length free ≤ length free' + 2 * (regions a n - π)
  pub kept : (y : ℕ) → IsData level free y → Kept root.level free' s r.1 y

-- Pages of a range below 2 ^ 39 are different pages.
other_page :
    (a n j k : ℕ)
    → a + n * 4096 < 2 ^ 39
    → j ≤ n
    → k ≤ n
    → j ≢ k
    → ¬ SamePage (a + j * 4096) (a + k * 4096)
other_page a n j k small h h' ne e = omega arith

-- A page, and the range behind it.
module _ (first last pt π π' n a pa perm : ℕ) (level : ℕ → ℕ) (free : List ℕ) (s t : Kmem)
    (r : Bool × Kmem) (small : a + suc n * 4096 < 2 ^ 39)
    (one : (k : ℕ) → k ≤ 0 → translation pt t (a + k * 4096) ≡ entry_of (pa + k * 4096) perm)
    (one_others : (va : ℕ)
      → ((k : ℕ) → k ≤ 0 → ¬ SamePage (a + k * 4096) va)
      → translation pt t va ≡ translation pt s va)
    {level' : ℕ → ℕ} {free' : List ℕ}
    (one_kept : (y : ℕ) → IsData level free y → Kept level' free' s t y)
    (fewer : length free + 2 * (regions (a + pgsize) n - π')
      ≤ length free' + 2 * (regions a (suc n) - π))
    (rest : Entered first last pt π' n (a + pgsize) (pa + pgsize) perm level' free' t r) where
  next : (b k : ℕ) → b + pgsize + k * 4096 ≡ b + suc k * 4096
  next b k = omega arith

  join_entered :
      (k : ℕ) → k ≤ suc n → translation pt r.1 (a + k * 4096) ≡ entry_of (pa + k * 4096) perm
  join_entered zero le =
      rest.others (a + 0 * 4096) (λ j h e.
        other_page a (suc n) (suc j) 0 small (omega arith) (omega arith) (λ z. omega arith)
          (subst (λ b. SamePage b (a + 0 * 4096)) (next a j) e))
      ∙ one 0 (omega arith)
  join_entered (suc k) le =
      ap (translation pt r.1) (sym (next a k))
      ∙ rest.entered k (omega arith)
      ∙ ap (λ b. entry_of b perm) (next pa k)

  join_others :
      (va : ℕ)
      → ((k : ℕ) → k ≤ suc n → ¬ SamePage (a + k * 4096) va)
      → translation pt r.1 va ≡ translation pt s va
  join_others va off =
      rest.others va (λ j h e. off (suc j) (omega arith) (subst (λ b. SamePage b va) (next a j) e))
      ∙ one_others va (λ j h. off j (omega arith))

  join : Entered first last pt π (suc n) a pa perm level free s r
  join = record {
    ok = rest.ok;
    free' = rest.free';
    root = rest.root;
    entered = join_entered;
    others = join_others;
    taken = omega (arith, rest.taken, fewer);
    kept = λ y d.
        let (d1, same) = one_kept y d in
        let (d2, same') = rest.kept y d1 in (d2, λ b inside. same' b inside ∙ same b inside);
  }

module _ (first last pt : ℕ) where
  -- what the walk takes
  walk_cost :
      (π a : ℕ) (free : List ℕ) (s : Kmem) (h : HasRoot first last pt free s)
      → Ready π pt a s
      → 2 * (1 - π) ≤ length free
      → ((walk_from 2 pt a true s).0 ≢ 0)
        × (length free ≤ length (walked-Walked first last pt a free s h).free' + 2 * (1 - π))
  walk_cost π a free s h (inl z) enough =
      let w = walked-Walked first last pt a free s h in
      (w.enough (omega arith), omega (arith, w.taken))
  walk_cost π a free s h (inr (one, ne)) enough =
      let w = walked-Walked first last pt a free s h in
      let (found, fewer) = w.ready ne in (found, omega arith)

  -- whether the next page needs new tables, and what is left to take
  next_budget :
      (π a n : ℕ) (t : Kmem) (level : ℕ → ℕ) (free : List ℕ)
      → IsTree first last level free t
      → level pt ≡ 2
      → address_for 2 pt a t.mem ≢ 0
      → (π' : ℕ) × Ready π' pt (a + pgsize) t
        × (regions (a + pgsize) n - π' + 1 ≡ regions a (suc n))
  unfolding px
  next_budget π a n t level free tree at ne =
      elim (ℕ_discrete ((a / 4096 + 1) / 512) (a / 4096 / 512)) [
        | yes same ↦ (
          1,
          inr (
            refl,
            same_tables first last level free t tree pt a (a + pgsize) at (omega arith)
                (omega arith) ne,
          ),
          omega arith,
        )
        | no other ↦ (0, inl refl, omega arith)
      ]

  map_page-Entered :
      (π a pa perm : ℕ) (free : List ℕ) (s : Kmem)
      → (h : HasRoot first last pt free s) → Ready π pt a s
      → 2 * (1 - π) ≤ length free
      → bit v_bit (translation pt s a) ≡ false
      → Entered first last pt π 0 a pa perm h.level free s (map_page pt a pa perm s)
        × (address_for 2 pt a (map_page pt a pa perm s).1.mem ≢ 0)
  unfolding map_page
  map_page-Entered π a pa perm free s h ready enough unmapped =
      let w = walked-Walked first last pt a free s h in
      let (ne, fewer) = walk_cost π a free s h ready enough in
      let v = entry_of pa perm in
      let u = store (walk_from 2 pt a true s).0 v (walk_from 2 pt a true s).1 in
      let there : ((walk_from 2 pt a true s).0 == 0) ≡ false = ground (arith, ne) in
      let clear : bit v_bit ((walk_from 2 pt a true s).1.mem (walk_from 2 pt a true s).0) ≡ false =
        ap (bit v_bit) (at_pte first last pt a free s h ne) ∙ unmapped in
      rw (there, clear)
        (
          record {
            ok = refl;
            free' = w.free';
            root = stored-HasRoot first last pt a free s h ne v;
            entered = λ k le.
                let z : 0 ≡ k = omega arith in
                subst (λ k. translation pt u (a + k * 4096) ≡ entry_of (pa + k * 4096) perm) z
                  (ap (translation pt u) (omega arith)
                    ∙ stored_here first last pt a free s h ne v
                    ∙ ap (λ p. entry_of p perm) (omega arith));
            others = λ va off.
                stored_other first last pt a free s h ne v va
                  (λ e. off 0 (omega arith) (subst (λ b. SamePage b va) (omega arith) e));
            taken = omega (arith, fewer);
            kept = stored-Kept first last pt a free s h ne v;
          },
          stored_tables first last pt a free s h ne v,
        )

  pub map_from-Entered :
      (n π a pa perm : ℕ) (free : List ℕ) (s : Kmem)
      → (h : HasRoot first last pt free s) → Ready π pt a s
      → 2 * (regions a n - π) ≤ length free
      → a + n * 4096 < 2 ^ 39
      → ((k : ℕ) → k ≤ n → bit v_bit (translation pt s (a + k * 4096)) ≡ false)
      → Entered first last pt π n a pa perm h.level free s (map_from n pt a pa perm s)
  unfolding map_from
  map_from-Entered zero π a pa perm free s h ready enough small unmapped =
      (map_page-Entered π a pa perm free s h ready (omega arith) (
        subst (λ b. bit v_bit (translation pt s b) ≡ false) (omega arith)
          (unmapped 0 (omega arith)))).0
  map_from-Entered (suc n) π a pa perm free s h ready enough small unmapped =
      let (one, tables) = map_page-Entered π a pa perm free s h ready (omega arith) (
        subst (λ b. bit v_bit (translation pt s b) ≡ false) (omega arith)
          (unmapped 0 (omega arith))) in
      let t = (map_page pt a pa perm s).1 in
      let still : (k : ℕ)
          → k ≤ n
          → translation pt t (a + pgsize + k * 4096) ≡ translation pt s (a + suc k * 4096) =
        λ k le.
          ap (translation pt t) (omega arith)
          ∙ one.others (a + suc k * 4096) (λ j z.
            other_page a (suc n) j (suc k) small (omega arith) (omega arith) (λ e. omega arith)) in
      let (π', ready', budget) =
        next_budget π a n t one.root.level one.free' one.root.tree one.root.root tables in
      let rest =
        map_from-Entered n π' (a + pgsize) (pa + pgsize) perm one.free' t one.root ready'
          (omega (arith, one.taken, budget)) (omega arith)
          (λ k le. ap (bit v_bit) (still k le) ∙ unmapped (suc k) (omega arith)) in
      rw one.ok (
        join first last pt π π' n a pa perm h.level free s t
          (map_from n pt (a + pgsize) (pa + pgsize) perm t) small one.entered one.others one.kept
          (omega (arith, one.taken, budget)) rest)
