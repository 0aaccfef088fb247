-- ===== src/Fs/Read/Names.antt =====
-- Names in the directory: `streq`, the scan for a name, and the copy that fs_create makes of it.
use kernel_hobby.Base.{
  ℕ, zero, suc, ◌+◌, ◌≤◌, ◌<◌, ◌≡◌, ◌↔◌, true, List, [], ◌∷◌, none, some, arith, get_or, ◌==◌,
  if◌then◌else◌, Bool-cases, inl, inr,
}
use kernel_hobby.Fs.Format.{Dirent, blank}
use kernel_hobby.Fs.State.{Fs, streq}
use kernel_hobby.Fs.Read.{find, lookup}

-- the string that an array of bytes holds: what stands before the first 0
pub c_str : List ℕ → List ℕ
c_str [] = []
c_str (x ∷ xs) = if x == 0 then [] else x ∷ c_str xs

-- `streq` decides whether two arrays hold the same string.
pub streq_iff : (xs ys : List ℕ) → (streq xs ys ≡ true) ↔ (c_str xs ≡ c_str ys)
unfolding streq c_str
streq_iff [] [] = ground arith
streq_iff [] (y ∷ ys) = ground arith
streq_iff (x ∷ xs) [] = ground arith
streq_iff (x ∷ xs) (y ∷ ys) = ground (arith, streq_iff xs ys)

-- `find` returns the first entry with the name.
pub record FirstNamed (dir : List Dirent) (name : List ℕ) (i n k : ℕ) : Type 0 where
  pub lo : i ≤ k
  pub hi : k < i + n
  pub named : streq (get_or dir k blank).name name ≡ true

pub find-FirstNamed :
    (n i : ℕ) (dir : List Dirent) (name : List ℕ) {k : ℕ}
    → find n i dir name ≡ some k
    → FirstNamed dir name i n k
unfolding find
find-FirstNamed zero i dir name h = ground arith
find-FirstNamed (suc n) i dir name {k} h =
    elim (Bool-cases (streq (get_or dir i blank).name name)) [
      | inl e ↦ ground (arith, e)
      | inr e ↦
          let later : find n (suc i) dir name ≡ some k = ground arith in
          let r = find-FirstNamed n (suc i) dir name later in
          record { lo = omega (arith, r.lo); hi = omega (arith, r.hi); named = r.named }
    ]

-- The scan depends only on the entries that it looks at, and takes the first that fits.
pub find_more_some :
    (n i : ℕ) (dir dir' : List Dirent) (name : List ℕ) (k : ℕ)
    → ((j : ℕ) → i ≤ j → j < i + n → get_or dir' j blank ≡ get_or dir j blank)
    → find n i dir name ≡ some k
    → find (suc n) i dir' name ≡ some k
unfolding find
find_more_some zero i dir dir' name k h e = ground arith
find_more_some (suc n) i dir dir' name k h e = ground (
  arith,
  h i,
  find_more_some n (suc i) dir dir' name k (λ j lo hi. h j (omega arith) (omega arith)),
)

-- A further entry is looked at last.
pub find_more_none :
    (n i l : ℕ) (dir dir' : List Dirent) (name : List ℕ)
    → l ≡ i + n
    → ((j : ℕ) → i ≤ j → j < i + n → get_or dir' j blank ≡ get_or dir j blank)
    → find n i dir name ≡ none
    → find (suc n) i dir' name ≡ (if streq (get_or dir' l blank).name name then some l else none)
unfolding find
find_more_none zero i l dir dir' name e h q = let same : i ≡ l = omega arith in rw same
find_more_none (suc n) i l dir dir' name e h q = ground (
  arith,
  h i,
  find_more_none n (suc i) l dir dir' name (omega arith)
      (λ j lo hi. h j (omega arith) (omega arith)),
)

-- A name that is found is that of a file.
pub lookup-lt : (s : Fs) (name : List ℕ) (i : ℕ) → lookup s name ≡ some i → i < s.nfiles
unfolding lookup
lookup-lt s name i h = omega (arith, (find-FirstNamed s.nfiles 0 s.dir name h).hi)
