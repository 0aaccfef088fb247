-- ===== src/Base/Bytes.antt =====
-- Fixed buffers of bytes, and the little-endian 32-bit words that a struct lays out in them.
use Prim.Native.Nat.{ℕ, zero, suc, ◌+◌, ◌*◌, ◌/◌, ◌%◌, ◌^◌, ◌≤◌, ◌<◌}
use mathlib.Core.Path.{◌≡◌, refl, ap, ap₂, ◌∙◌}
use mathlib.Core.List.{List, [], ◌∷◌, ◌++◌}
use native.Mathlib.Omega.{arith}
use kernel_hobby.Base.Lists.{length, get_or, All}

-- `for (j = 0; j < n; j++) buf[j] = j < length xs ? xs[j] : 0;`
unfoldable pub fill : ℕ → List ℕ → List ℕ
fill zero xs = []
fill (suc n) [] = 0 ∷ fill n []
fill (suc n) (x ∷ xs) = x ∷ fill n xs

-- the bytes of an array of uint32
unfoldable pub words : List ℕ → List ℕ
words [] = []
words (w ∷ ws) = (w % 256) ∷ (w / 256 % 256) ∷ (w / 2 ^ 16 % 256) ∷ (w / 2 ^ 24 % 256) ∷ words ws

-- the uint32 number `k` of a buffer
unfoldable pub word_at : List ℕ → ℕ → ℕ
word_at (a ∷ b ∷ c ∷ d ∷ r) zero = a + 256 * b + 2 ^ 16 * c + 2 ^ 24 * d
word_at (a ∷ b ∷ c ∷ d ∷ r) (suc k) = word_at r k
word_at _ _ = 0

-- `n` of them from number `k` on
unfoldable pub words_at : List ℕ → ℕ → ℕ → List ℕ
words_at buf k zero = []
words_at buf k (suc n) = word_at buf k ∷ words_at buf (suc k) n

-- `n` elements of an array of words, from number `k` on, 0 past its end
abbrev pub gets : List ℕ → ℕ → ℕ → List ℕ
gets ws k zero = []
gets ws k (suc n) = get_or ws k 0 ∷ gets ws (suc k) n

-- the cast to uint32
abbrev pub u32 : ℕ → ℕ
u32 n = n % 2 ^ 32

abbrev pub IsWord : ℕ → Type 0
IsWord w = w < 2 ^ 32

pub length-fill : (n : ℕ) (xs : List ℕ) → length (fill n xs) ≡ n
unfolding fill
length-fill zero xs = refl
length-fill (suc n) [] = ap suc (length-fill n [])
length-fill (suc n) (x ∷ xs) = ap suc (length-fill n xs)

word_at-fill_nil : (k n : ℕ) → word_at (fill n []) k ≡ 0
unfolding fill word_at
word_at-fill_nil zero zero = refl
word_at-fill_nil (suc k) zero = refl
word_at-fill_nil zero (suc zero) = refl
word_at-fill_nil (suc k) (suc zero) = refl
word_at-fill_nil zero (suc (suc zero)) = refl
word_at-fill_nil (suc k) (suc (suc zero)) = refl
word_at-fill_nil zero (suc (suc (suc zero))) = refl
word_at-fill_nil (suc k) (suc (suc (suc zero))) = refl
word_at-fill_nil zero (suc (suc (suc (suc n)))) = refl
word_at-fill_nil (suc k) (suc (suc (suc (suc n)))) = word_at-fill_nil k n

word_at-words :
    (w : ℕ) (ws : List ℕ) (m : ℕ)
    → IsWord w
    → word_at (fill (suc (suc (suc (suc m)))) (words (w ∷ ws))) 0 ≡ w
unfolding words fill word_at
word_at-words w ws m h = omega arith

word_at-suc-words :
    (w : ℕ) (ws : List ℕ) (k m : ℕ)
    → word_at (fill (suc (suc (suc (suc m)))) (words (w ∷ ws))) (suc k)
      ≡ word_at (fill m (words ws)) k
unfolding words fill word_at
word_at-suc-words w ws k m = refl

-- A word that was laid out inside the buffer is read back; past the words the buffer reads 0.
pub word_at-fill :
    (ws : List ℕ) (k n : ℕ)
    → All IsWord ws
    → 4 * k + 4 ≤ n
    → word_at (fill n (words ws)) k ≡ get_or ws k 0
word_at-fill [] k n h le = unfold words in word_at-fill_nil k n
word_at-fill (w ∷ ws) zero zero h le = absurd (omega arith)
word_at-fill (w ∷ ws) zero (suc zero) h le = absurd (omega arith)
word_at-fill (w ∷ ws) zero (suc (suc zero)) h le = absurd (omega arith)
word_at-fill (w ∷ ws) zero (suc (suc (suc zero))) h le = absurd (omega arith)
word_at-fill (w ∷ ws) zero (suc (suc (suc (suc m)))) h le = word_at-words w ws m h.0
word_at-fill (w ∷ ws) (suc k) zero h le = absurd (omega arith)
word_at-fill (w ∷ ws) (suc k) (suc zero) h le = absurd (omega arith)
word_at-fill (w ∷ ws) (suc k) (suc (suc zero)) h le = absurd (omega arith)
word_at-fill (w ∷ ws) (suc k) (suc (suc (suc zero))) h le = absurd (omega arith)
word_at-fill (w ∷ ws) (suc k) (suc (suc (suc (suc m)))) h le =
    word_at-suc-words w ws k m ∙ word_at-fill ws k m h.1 (omega arith)

-- The words of an array that fits are read back, with zeros after its end.
pub words_at-fill :
    (ws : List ℕ) (k m n : ℕ)
    → All IsWord ws
    → 4 * k + 4 * m ≤ n
    → words_at (fill n (words ws)) k m ≡ gets ws k m
unfolding words_at
words_at-fill ws k zero n h le = refl
words_at-fill ws k (suc m) n h le =
    ap₂ ◌∷◌ (word_at-fill ws k n h (omega arith)) (words_at-fill ws (suc k) m n h (omega arith))

-- A full buffer is laid out as it is.
pub fill_exact : (n : ℕ) (xs : List ℕ) → length xs ≡ n → fill n xs ≡ xs
unfolding fill
fill_exact zero [] e = refl
fill_exact zero (x ∷ xs) e = absurd (omega arith)
fill_exact (suc n) [] e = absurd (omega arith)
fill_exact (suc n) (x ∷ xs) e = ap (λ t. x ∷ t) (fill_exact n xs (omega arith))

-- Two words before other bytes.
pub word_at-two :
    (a b : ℕ) (r : List ℕ)
    → IsWord a
    → IsWord b
    → (word_at (words (a ∷ b ∷ []) ++ r) 0 ≡ a) × (word_at (words (a ∷ b ∷ []) ++ r) 1 ≡ b)
unfolding words word_at
word_at-two a b r ha hb = (omega arith, omega arith)
