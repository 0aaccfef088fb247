-- ===== src/KernelShell/Editor.antt =====
-- src/shell.c: the buffer of the shell is a line editor that never leaves its 128 bytes.
use kernel_hobby.Base.{
  ℕ, zero, suc, ◌+◌, ◌-◌, ◌<◌, ◌≡◌, refl, sym, ap, ap₂, ◌∙◌, arith, ◌||◌, List, [], ◌∷◌, ◌++◌,
  length, take, set, length-set, length-take, ltb, ltb→lt, ◌==◌, if◌then◌else◌, Bool-cases, inl,
  inr, text_of,
}
use kernel_hobby.Uart.{uart_putc, uart_puts}
use kernel_hobby.KernelShell.{World, KernelShell, line_size, prompt, execute, shell_input}

-- the line so far, and what went out
pub record Editor : Type 0 where
  pub text : List ℕ
  pub shown : List ℕ

abbrev pub drop_last : List ℕ → List ℕ
drop_last [] = []
drop_last (x ∷ []) = []
drop_last (x ∷ y ∷ xs) = x ∷ drop_last (y ∷ xs)

-- One key: Enter executes the line and begins a new one, a rubout takes the last byte away, and any other
-- byte goes to the end of the line, if it has fewer than 127.
unfoldable pub press : World → ℕ → Editor → Editor
press w c e =
    if c == b'\r' || c == b'\n'
    then record { text = []; shown = prompt (execute w (text_of e.text) (uart_putc b'\n' e.shown)) }
    else if c == 0x7f || c == 0x08
    then if ltb 0 (length e.text)
      then record { text = drop_last e.text; shown = uart_puts (8 ∷ 32 ∷ 8 ∷ []) e.shown }
      else e
    else if ltb (length e.text) 127
    then record { text = e.text ++ c ∷ []; shown = uart_putc c e.shown }
    else e

-- The buffer holds the line, and has place for it and for the 0 behind it.
pub record Shows (s : KernelShell) (e : Editor) : Type 0 where
  pub size : length s.line ≡ line_size
  pub fits : s.len < line_size
  pub text : take s.len s.line ≡ e.text
  pub out : s.out ≡ e.shown

text_of-set : (n : ℕ) (xs : List ℕ) → n < length xs → text_of (set xs n 0) ≡ text_of (take n xs)
text_of-set n [] h = absurd (omega arith)
text_of-set zero (x ∷ xs) h = refl
text_of-set (suc n) (x ∷ xs) h = rw (text_of-set n xs (omega arith)) refl

take-set : (n c : ℕ) (xs : List ℕ) → n < length xs → take (suc n) (set xs n c) ≡ take n xs ++ c ∷ []
take-set n c [] h = absurd (omega arith)
take-set zero c (x ∷ xs) h = refl
take-set (suc n) c (x ∷ xs) h = ap (λ t. x ∷ t) (take-set n c xs (omega arith))

take-drop_last : (n : ℕ) (xs : List ℕ) → n < length xs → take n xs ≡ drop_last (take (suc n) xs)
take-drop_last n [] h = absurd (omega arith)
take-drop_last zero (x ∷ xs) h = refl
take-drop_last (suc n) (x ∷ []) h = absurd (omega arith)
take-drop_last (suc n) (x ∷ y ∷ xs) h = ap (λ t. x ∷ t) (take-drop_last n (y ∷ xs) (omega arith))

length-Shows : {s : KernelShell} {e : Editor} → Shows s e → length e.text ≡ s.len
length-Shows {s} {e} h =
    sym (ap length h.text) ∙ length-take s.len s.line ∙ omega (arith, h.size, h.fits)

module _ (w : World) (c : ℕ) {s : KernelShell} {e : Editor} (h : Shows s e) where
  enter-Shows :
      Shows
        (record {
          line = set s.line s.len 0;
          len = 0;
          out = prompt (execute w (text_of (set s.line s.len 0)) (uart_putc b'\n' s.out));
        })
        (record {
          text = [];
          shown = prompt (execute w (text_of e.text) (uart_putc b'\n' e.shown));
        })
  enter-Shows = record {
    size = length-set s.line s.len 0 ∙ h.size;
    fits = omega arith;
    text = refl;
    out =
        ap₂ (λ t o. prompt (execute w t (uart_putc b'\n' o)))
          (text_of-set s.len s.line (omega (arith, h.size, h.fits)) ∙ ap text_of h.text) h.out;
  }

  rubout-Shows :
      0 < s.len
      → Shows
          (record s { len = s.len - 1; out = uart_puts (8 ∷ 32 ∷ 8 ∷ []) s.out })
          (record { text = drop_last e.text; shown = uart_puts (8 ∷ 32 ∷ 8 ∷ []) e.shown })
  rubout-Shows pos = record {
    size = h.size;
    fits = omega (arith, h.fits);
    text =
        let n : s.len ≡ suc (s.len - 1) = omega arith in
        take-drop_last (s.len - 1) s.line (omega (arith, h.size, h.fits))
        ∙ ap drop_last (ap (λ k. take k s.line) (sym n) ∙ h.text);
    out = ap (uart_puts (8 ∷ 32 ∷ 8 ∷ [])) h.out;
  }

  insert-Shows :
      s.len < 127
      → Shows
          (record { line = set s.line s.len c; len = s.len + 1; out = uart_putc c s.out })
          (record { text = e.text ++ c ∷ []; shown = uart_putc c e.shown })
  insert-Shows lt = record {
    size = length-set s.line s.len c ∙ h.size;
    fits = omega arith;
    text =
        let n : s.len + 1 ≡ suc s.len = omega arith in
        ap (λ k. take k (set s.line s.len c)) n
        ∙ take-set s.len c s.line (omega (arith, h.size, h.fits))
        ∙ ap (λ t. t ++ c ∷ []) h.text;
    out = ap (uart_putc c) h.out;
  }

  shell_input-Shows : Shows (shell_input w c s) (press w c e)
  unfolding shell_input press
  shell_input-Shows = rw (length-Shows h) (elim (Bool-cases (c == b'\r' || c == b'\n')) [
    | inl enter ↦ rw enter enter-Shows
    | inr key ↦ rw key (elim (Bool-cases (c == 0x7f || c == 0x08)) [
      | inl rubout ↦ rw rubout (elim (Bool-cases (ltb 0 s.len)) [
        | inl some_left ↦ rw some_left (rubout-Shows (ltb→lt _ _ some_left))
        | inr empty ↦ rw empty h
      ])
      | inr other ↦ rw other (elim (Bool-cases (ltb s.len 127)) [
        | inl room ↦ rw room (insert-Shows (ltb→lt _ _ room))
        | inr full ↦ rw full h
      ])
    ])
  ])

-- the bytes that come in, each with the state of the kernel at that time
abbrev pub shell_inputs : List (World × ℕ) → KernelShell → KernelShell
shell_inputs [] s = s
shell_inputs ((w, c) ∷ cs) s = shell_inputs cs (shell_input w c s)

abbrev pub presses : List (World × ℕ) → Editor → Editor
presses [] e = e
presses ((w, c) ∷ cs) e = presses cs (press w c e)

-- Whatever bytes come in, at whatever states of the kernel, the shell goes on as the line editor does: the same
-- bytes go out, the buffer holds the line of the editor, with place for the 0 behind it, and the index stays
-- inside the buffer.
pub shell_inputs-Shows :
    (keys : List (World × ℕ)) (s : KernelShell) (e : Editor)
    → Shows s e
    → Shows (shell_inputs keys s) (presses keys e)
shell_inputs-Shows [] s e h = h
shell_inputs-Shows ((w, c) ∷ cs) s e h =
    shell_inputs-Shows cs (shell_input w c s) (press w c e) (shell_input-Shows w c h)
