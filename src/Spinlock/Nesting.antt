-- ===== src/Spinlock/Nesting.antt =====
-- src/spinlock.c: push_off and pop_off, nested, leave the interrupts as they were.
use kernel_hobby.Base.{
  ℕ, suc, ◌+◌, ◌-◌, ◌%◌, ◌^◌, ◌<◌, ◌≡◌, ◌⊎◌, inl, inr, refl, ◌∙◌, false, arith, ◌==◌, if◌then◌else◌,
  Bool-cases,
}
use kernel_hobby.Spinlock.{Cpu, push_off, pop_off}

-- Code that takes and gives back locks in order: nothing, two parts one after the other, or a part inside
-- `push_off` and `pop_off`.
pub data Section : Type 0 where
  idle : Section
  both : Section → Section → Section
  within : Section → Section

unfoldable pub run : Section → Cpu → Cpu
run idle c = c
run (both a b) c = run b (run a c)
run (within a) c = pop_off (run a (push_off c))

-- how deep the sections are nested
abbrev pub size : Section → ℕ
size idle = 0
size (both a b) = size a + size b
size (within a) = suc (size a)

-- Inside a section the interrupts are off.
abbrev pub IsOff : Cpu → Type 0
IsOff c = (c.noff ≡ 0) ⊎ (c.intr ≡ false)

-- The core is as before, but for `intena` outside of any section.
pub record Restored (c d : Cpu) : Type 0 where
  pub noff : d.noff ≡ c.noff
  pub intr : d.intr ≡ c.intr
  pub intena : 0 < c.noff → d.intena ≡ c.intena

-- `pop_off` of a core that still has what `push_off` made of `c`.
pop_off-Restored :
    (c d : Cpu)
    → c.noff + 1 < 2 ^ 31
    → IsOff c
    → d.noff ≡ c.noff + 1
    → d.intr ≡ false
    → d.intena ≡ (if c.noff == 0 then c.intr else c.intena)
    → Restored c (pop_off d)
unfolding pop_off
pop_off-Restored c d small off n f e =
    let back : (d.noff + 2 ^ 32 - 1) % 2 ^ 32 ≡ c.noff = omega (arith, n, small) in
    record {
      noff = back;
      intr = elim (Bool-cases (c.noff == 0)) [
        | inl outer ↦ elim (Bool-cases c.intr) [
          | inl on ↦ rw (back, outer) (ground (arith, e, outer, on))
          | inr out ↦ rw (back, outer) (ground (arith, e, outer, out, f))
        ]
        | inr inner ↦ rw (back, inner) (ground (arith, f, inner, off))
      ];
      intena = λ h. ground (arith, e, h);
    }

push_run :
    (a : Section) (c : Cpu)
    → c.noff + 1 < 2 ^ 31
    → IsOff c
    → Restored (push_off c) (run a (push_off c))
    → Restored c (pop_off (run a (push_off c)))
unfolding push_off
push_run a c small off r =
    let deeper : (c.noff + 1) % 2 ^ 32 ≡ c.noff + 1 = omega arith in
    pop_off-Restored c (run a (push_off c)) small off (r.noff ∙ deeper) r.intr
      (r.intena (omega (arith, deeper)))

-- On a core whose sections are nested less than 2 ^ 31 deep, with the interrupts off inside a section, any
-- code that nests push_off and pop_off leaves the depth and the interrupts as they were.
pub run-Restored :
    (a : Section) (c : Cpu) → c.noff + size a < 2 ^ 31 → IsOff c → Restored c (run a c)
unfolding run push_off
run-Restored idle c small off = record { noff = refl; intr = refl; intena = λ h. refl }
run-Restored (both a b) c small off =
    let r = run-Restored a c (omega arith) off in
    let off' : IsOff (run a c) = elim off [ inl z ↦ inl (r.noff ∙ z) | inr f ↦ inr (r.intr ∙ f) ] in
    let r' = run-Restored b (run a c) (omega (arith, r.noff)) off' in
    record {
      noff = r'.noff ∙ r.noff;
      intr = r'.intr ∙ r.intr;
      intena = λ h. r'.intena (omega (arith, r.noff)) ∙ r.intena h;
    }
run-Restored (within a) c small off =
    push_run a c (omega arith) off (run-Restored a (push_off c) (omega arith) (inr refl))
