-- ===== src/Base/Segments.antt =====
-- A stretch of a function on numbers that reads as a list.
use Prim.Native.Nat.{ℕ, zero, suc, ◌+◌, ◌<◌}
use mathlib.Core.Path.{◌≡◌, refl, ap, ◌∙◌}
use mathlib.Core.List.{List, [], ◌∷◌, ◌++◌}
use native.Mathlib.Omega.{arith}
use kernel_hobby.Base.Lists.{length, length-append, get_or}

module _ {ℓ} {A : Type ℓ} (z : A) where
  -- From `p` on the function has the elements of a list.
  abbrev pub Carries : (ℕ → A) → ℕ → List A → Type ℓ
  Carries f p bs = (i : ℕ) → i < length bs → f (p + i) ≡ get_or bs i z

  pub get_or-left : (xs ys : List A) (i : ℕ) → i < length xs → get_or (xs ++ ys) i z ≡ get_or xs i z
  get_or-left [] ys i h = absurd (omega arith)
  get_or-left (x ∷ xs) ys zero h = refl
  get_or-left (x ∷ xs) ys (suc i) h = get_or-left xs ys i (omega arith)

  get_or-right : (xs ys : List A) (i : ℕ) → get_or (xs ++ ys) (length xs + i) z ≡ get_or ys i z
  get_or-right [] ys i = let e : 0 + i ≡ i = omega arith in ap (λ n. get_or ys n z) e
  get_or-right (x ∷ xs) ys i =
      let e : suc (length xs) + i ≡ suc (length xs + i) = omega arith in
      ap (λ n. get_or (x ∷ xs ++ ys) n z) e ∙ get_or-right xs ys i

  pub Carries-left : (f : ℕ → A) (p : ℕ) (xs ys : List A) → Carries f p (xs ++ ys) → Carries f p xs
  Carries-left f p xs ys h i lt = h i (omega (arith, length-append xs ys)) ∙ get_or-left xs ys i lt

  pub Carries-right :
      (f : ℕ → A) (p : ℕ) (xs ys : List A) → Carries f p (xs ++ ys) → Carries f (p + length xs) ys
  Carries-right f p xs ys h i lt =
      let e : p + length xs + i ≡ p + (length xs + i) = omega arith in
      ap f e ∙ h (length xs + i) (omega (arith, length-append xs ys)) ∙ get_or-right xs ys i
