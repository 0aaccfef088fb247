-- ===== src/Shell/Typed.antt =====
-- user/init.c: each command is understood as it was typed.
use kernel_hobby.Base.{
  text_of, ℕ, zero, suc, ◌<◌, ◌≤◌, ap, ◌∙◌, take, length-append, ◌≡◌, ◌≢◌, ◌⊎◌, inl, inr, refl,
  arith, true, false, List, [], ◌∷◌, ◌++◌, length, All, ◌==◌,
}
use kernel_hobby.Shell.{
  Command, nothing, help, ls, mem, tcp, rm, cat, program, write, command, choose, same_text,
  startswith, without_newline, word_of, behind_word, line_room,
}

-- no byte of a text is 0 or a newline
abbrev pub IsLine : List ℕ → Type 0
IsLine = All (λ c. c ≢ 0 × c ≢ b'\n')

-- nor a blank
abbrev pub IsWord : List ℕ → Type 0
IsWord = All (λ c. c ≢ 0 × c ≢ b'\n' × c ≢ b' ')

text_of-line : (t : List ℕ) → IsLine t → text_of (without_newline (t ++ b'\n' ∷ [])) ≡ t
text_of-line [] h = refl
text_of-line (c ∷ []) ((n0, nl), h) = let other : (c == 0) ≡ false = ground arith in rw other refl
text_of-line (c ∷ d ∷ cs) (h, hs) =
    let rest = text_of-line (d ∷ cs) hs in
    let other : (c == 0) ≡ false = ground arith in rw (other, rest) refl

word_lem : (w t : List ℕ) → IsWord w → word_of (w ++ b' ' ∷ t) ≡ w × behind_word (w ++ b' ' ∷ t) ≡ t
word_lem [] t h = (refl, refl)
word_lem (c ∷ cs) t ((n0, nl, nb), hs) =
    let (e, e') = word_lem cs t hs in
    let other : (c == b' ') ≡ false = ground arith in rw (other, e, e') (refl, refl)

IsWord-IsLine : (w : List ℕ) → IsWord w → IsLine w
IsWord-IsLine [] h = tt
IsWord-IsLine (c ∷ cs) ((n0, nl, nb), hs) = ((n0, nl), IsWord-IsLine cs hs)

IsLine-append : (xs ys : List ℕ) → IsLine xs → IsLine ys → IsLine (xs ++ ys)
IsLine-append [] ys p q = q
IsLine-append (x ∷ xs) ys (p, ps) q = (p, IsLine-append xs ys ps q)

abbrev rm_text : List ℕ
rm_text = b'r' ∷ b'm' ∷ b' ' ∷ []

abbrev cat_text : List ℕ
cat_text = b'c' ∷ b'a' ∷ b't' ∷ b' ' ∷ []

abbrev write_text : List ℕ
write_text = b'w' ∷ b'r' ∷ b'i' ∷ b't' ∷ b'e' ∷ b' ' ∷ []

-- the line that asks for a command
abbrev pub typed : Command → List ℕ
typed nothing = []
typed help = b'h' ∷ b'e' ∷ b'l' ∷ b'p' ∷ []
typed ls = b'l' ∷ b's' ∷ []
typed mem = b'm' ∷ b'e' ∷ b'm' ∷ []
typed tcp = b't' ∷ b'c' ∷ b'p' ∷ []
typed (rm name) = rm_text ++ name
typed (cat name) = cat_text ++ name
typed (write name contents) = write_text ++ (name ++ b' ' ∷ contents)
typed (program path) = path

-- The arguments can be typed: names of files to write have no blanks, and a path is not a builtin command.
abbrev pub IsTyped : Command → Type 0
IsTyped nothing = Unit
IsTyped help = Unit
IsTyped ls = Unit
IsTyped mem = Unit
IsTyped tcp = Unit
IsTyped (rm name) = IsLine name
IsTyped (cat name) = IsLine name
IsTyped (write name contents) = IsWord name × IsLine contents
IsTyped (program path) =
    IsLine path
    × 0 < length path
    × (same_text path (typed help) ≡ false)
    × (same_text path (typed ls) ≡ false)
    × (same_text path (typed mem) ≡ false)
    × (same_text path (typed tcp) ≡ false)
    × (startswith path rm_text ≡ false)
    × (startswith path cat_text ≡ false)
    × (startswith path write_text ≡ false)

typed-IsLine : (c : Command) → IsTyped c → IsLine (typed c)
typed-IsLine nothing h = tt
typed-IsLine help h = ground arith
typed-IsLine ls h = ground arith
typed-IsLine mem h = ground arith
typed-IsLine tcp h = ground arith
typed-IsLine (rm name) h = IsLine-append rm_text name (ground arith) h
typed-IsLine (cat name) h = IsLine-append cat_text name (ground arith) h
typed-IsLine (write name contents) (h, h') =
    IsLine-append write_text (name ++ b' ' ∷ contents) (ground arith)
      (IsLine-append name (b' ' ∷ contents) (IsWord-IsLine name h) (ground arith, h'))
typed-IsLine (program path) h = h.0

choose-typed :
    (c : Command)
    → IsTyped c
    → (0 < length (typed c) × choose (typed c) ≡ c) ⊎ (length (typed c) ≡ 0 × nothing ≡ c)
unfolding choose
choose-typed nothing h = inr (refl, refl)
choose-typed help h = inl (omega arith, refl)
choose-typed ls h = inl (omega arith, refl)
choose-typed mem h = inl (omega arith, refl)
choose-typed tcp h = inl (omega arith, refl)
choose-typed (rm name) h = inl (omega arith, refl)
choose-typed (cat name) h = inl (omega arith, refl)
choose-typed (write name contents) (h, h') =
    let (e, e') = word_lem name contents h in inl (omega arith, rw (e, e') refl)
choose-typed (program path) (h, pos, e1, e2, e3, e4, e5, e6, e7) =
    inl (pos, rw (choose, e1, e5, e2, e3, e4, e6, e7) refl)

-- a line that fits is read whole
take_whole : (n : ℕ) (t : List ℕ) → length t ≤ n → take n t ≡ t
take_whole zero [] h = refl
take_whole zero (c ∷ t) h = absurd (omega arith)
take_whole (suc n) [] h = refl
take_whole (suc n) (c ∷ t) h = ap (λ r. c ∷ r) (take_whole n t (omega arith))

-- A command whose line has at most 126 bytes, typed with a newline behind it, is understood by the shell as that
-- command with the same arguments.
pub command-typed :
    (c : Command) → IsTyped c → length (typed c) < line_room → command (typed c ++ b'\n' ∷ []) ≡ c
unfolding command
command-typed c h short =
    let whole : take line_room (typed c ++ b'\n' ∷ []) ≡ typed c ++ b'\n' ∷ [] =
      take_whole line_room (typed c ++ b'\n' ∷ [])
        (omega (arith, length-append (typed c) (b'\n' ∷ []))) in
    let line =
      ap (λ t. text_of (without_newline t)) whole ∙ text_of-line (typed c) (typed-IsLine c h) in
    elim (choose-typed c h) [
      | inl (pos, e) ↦
          let some_text : (length (typed c) == 0) ≡ false = ground arith in
          rw (command, line, some_text) e
      | inr (empty, e) ↦
          let no_text : (length (typed c) == 0) ≡ true = ground arith in
          rw (command, line, no_text) e
    ]
