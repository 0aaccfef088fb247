-- ===== src/Mkfs/Lookup.antt =====
-- src/fs.c: the search for a name in the directory that mkfs wrote.
use kernel_hobby.Base.{
  ℕ, zero, suc, ◌+◌, ◌<◌, ◌≡◌, refl, ◌∙◌, ap, sym, subst, arith, true, false, some, List, [], ◌∷◌,
  length, take, take_all, fill,
}
use kernel_hobby.Fs.Format.{Dirent, namelen}
use kernel_hobby.Fs.State.{streq}
use kernel_hobby.Fs.Read.{find}
use kernel_hobby.Fs.Inv.{entry}
use kernel_hobby.Fs.Change.RoundTrip.{IsText}
use kernel_hobby.Mkfs.{base_name, name_field}

-- a name and its field agree
streq-fill :
    (n : ℕ) (name : List ℕ) → IsText name → length name < n → streq (fill n name) name ≡ true
unfolding streq fill
streq-fill zero name t h = absurd (omega arith)
streq-fill (suc n) [] t h = refl
streq-fill (suc n) (c ∷ name) t h = ground (arith, streq-fill n name t.1, t.0)

pub streq-name_field :
    (path : List ℕ)
    → IsText (base_name path)
    → length (base_name path) < namelen
    → streq (name_field path) (base_name path) ≡ true
streq-name_field path t h =
    let whole : take 55 (base_name path) ≡ base_name path =
      take_all 55 (base_name path) (omega arith) in
    subst (λ n. streq (fill namelen n) (base_name path) ≡ true) (sym whole)
      (streq-fill namelen (base_name path) t h)

-- The search finds the first entry with the name.
pub find_first :
    (n i k : ℕ) (dir : List Dirent) (name : List ℕ)
    → k < n
    → ((j : ℕ) → j < k → streq (entry dir (i + j)).name name ≡ false)
    → streq (entry dir (i + k)).name name ≡ true
    → find n i dir name ≡ some (i + k)
unfolding find
find_first zero i k dir name lt before here = absurd (omega arith)
find_first (suc n) i zero dir name lt before here =
    let same : i + 0 ≡ i = omega arith in
    let found : streq (entry dir i).name name ≡ true =
      ap (λ j. streq (entry dir j).name name) (sym same) ∙ here in
    rw (find, found) (ap some (sym same))
find_first (suc n) i (suc k) dir name lt before here =
    let same : i + 0 ≡ i = omega arith in
    let other : streq (entry dir i).name name ≡ false =
      ap (λ j. streq (entry dir j).name name) (sym same) ∙ before 0 (omega arith) in
    let shift : (j : ℕ) → suc i + j ≡ i + suc j = λ j. omega arith in
    let rest =
      find_first n (suc i) k dir name (omega arith)
        (λ j h. ap (λ q. streq (entry dir q).name name) (shift j) ∙ before (suc j) (omega arith))
        (ap (λ q. streq (entry dir q).name name) (shift k) ∙ here) in
    rw (find, other) (rest ∙ ap some (shift k))
