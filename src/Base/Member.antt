-- ===== src/Base/Member.antt =====
-- Membership of a number in a list, as a Boolean test, and lists without repetition.
use Prim.Native.Nat.{ℕ}
use mathlib.Core.Path.{◌≡◌}
use mathlib.Core.Bool.{Bool, false, ◌||◌}
use mathlib.Core.List.{List, [], ◌∷◌}
use kernel_hobby.Base.Tests.{◌==◌}

abbrev pub has : ℕ → List ℕ → Bool
has x [] = false
has x (b ∷ bs) = b == x || has x bs

abbrev pub Distinct : List ℕ → Type 0
Distinct [] = Unit
Distinct (x ∷ xs) = (has x xs ≡ false) × Distinct xs
