-- ===== src/Uthread/Rounds.antt =====
-- user/uthread.c: the threads take turns until none is left.
use kernel_hobby.Base.{
  ℕ, zero, suc, ◌+◌, ◌-◌, ◌≤◌, ◌<◌, ◌≡◌, refl, ap, ap₂, ◌∙◌, sym, ◌≢◌, inl, inr, List, [], ◌++◌,
  some, dec_lt, subst, ltb, Bool, true, false, if◌then◌else◌, Bool-cases, arith, append_assoc,
  append-nil, ◌>>=◌,
}
use kernel_hobby.Uthread.{Sys, pass, schedule, set_ran, nthread}
use kernel_hobby.Uthread.Turns.{turns_left, IsThread, turn_text, Turned, visit_lem}

abbrev pub round_text : ℕ → ℕ → (ℕ → ℕ) → List ℕ
round_text zero i left = []
round_text (suc n) i left = turn_text i (left i) ++ round_text n (i + 1) left

-- `k` rounds over all threads
unfoldable pub rounds_text : ℕ → (ℕ → ℕ) → List ℕ
rounds_text zero left = []
rounds_text (suc k) left = round_text nthread 0 left ++ rounds_text k (λ j. left j - 1)

-- whether the round over `n` threads from `i` on leaves `ran` set
abbrev any_left : ℕ → ℕ → (ℕ → ℕ) → Bool → Bool
any_left zero i left ran = ran
any_left (suc n) i left ran = any_left n (i + 1) left (if ltb 0 (left i) then true else ran)

set_ran_lem : (ran b : Bool) (s : Sys) → set_ran ran (b, s) ≡ (if b then true else ran, s)
set_ran_lem ran true s = refl
set_ran_lem ran false s = refl

abbrev left_in : Sys → ℕ → ℕ
left_in s j = turns_left (s.t j)

-- what the loop over the threads `i` to `i + n - 1` does
record Passed (n i : ℕ) (s s' : Sys) : Type 0 where
  printed : s'.out ≡ s.out ++ round_text n i (left_in s)
  fewer : (j : ℕ) → i ≤ j → j < i + n → left_in s' j ≡ left_in s j - 1
  fit : (j : ℕ) → i ≤ j → j < i + n → IsThread j (s'.t j)
  before : (j : ℕ) → j < i → s'.t j ≡ s.t j

-- Later threads do not count on what an earlier one has left.
round_text-agree :
    (n i : ℕ) (f g : ℕ → ℕ)
    → ((j : ℕ) → i ≤ j → j < i + n → f j ≡ g j)
    → round_text n i f ≡ round_text n i g
round_text-agree zero i f g h = refl
round_text-agree (suc n) i f g h =
    ap₂ ◌++◌ (ap (turn_text i) (h i (omega arith) (omega arith)))
      (round_text-agree n (i + 1) f g (λ j lo hi. h j (omega arith) (omega arith)))

any_left-agree :
    (n i : ℕ) (f g : ℕ → ℕ) (ran : Bool)
    → ((j : ℕ) → i ≤ j → j < i + n → f j ≡ g j)
    → any_left n i f ran ≡ any_left n i g ran
any_left-agree zero i f g ran h = refl
any_left-agree (suc n) i f g ran h =
    rw (h i (omega arith) (omega arith))
      (any_left-agree n (i + 1) f g _ (λ j lo hi. h j (omega arith) (omega arith)))

-- A turn, and the loop over the threads behind it.
module _ {n i : ℕ} {s s' s'' : Sys} (turn : Turned i s s') (rest : Passed n (i + 1) s' s'') where
  same_later : (j : ℕ) → i + 1 ≤ j → left_in s' j ≡ left_in s j
  same_later j h = ap turns_left (turn.others j (omega arith))

  join_fewer : (j : ℕ) → i ≤ j → j < i + suc n → left_in s'' j ≡ left_in s j - 1
  join_fewer j lo hi = elim (dec_lt i j) [
    | yes l ↦
        rest.fewer j (omega arith) (omega arith) ∙ ap (λ k. k - 1) (same_later j (omega arith))
    | no l ↦
        let e : i ≡ j = omega arith in
        subst (λ j. left_in s'' j ≡ left_in s j - 1) e
          (ap turns_left (rest.before i (omega arith)) ∙ turn.fewer)
  ]

  join_fit : (j : ℕ) → i ≤ j → j < i + suc n → IsThread j (s''.t j)
  join_fit j lo hi = elim (dec_lt i j) [
    | yes l ↦ rest.fit j (omega arith) (omega arith)
    | no l ↦
        let e : i ≡ j = omega arith in
        subst (λ j. IsThread j (s''.t j)) e (rw (rest.before i (omega arith)) turn.fit)
  ]

  join : Passed (suc n) i s s''
  join = record {
    printed =
        rest.printed
        ∙ ap₂ ◌++◌ turn.printed (round_text-agree n (i + 1) _ _ (λ j lo hi. same_later j lo))
        ∙ append_assoc s.out (turn_text i (left_in s i)) (round_text n (i + 1) (left_in s));
    fewer = join_fewer;
    fit = join_fit;
    before = λ j h. rest.before j (omega arith) ∙ turn.others j (omega arith);
  }

pass_lem :
    (n i : ℕ) (ran : Bool) (s : Sys)
    → ((j : ℕ) → i ≤ j → j < i + n → IsThread j (s.t j))
    → (s' : Sys) × (pass n i (ran, s) ≡ some (any_left n i (left_in s) ran, s')) × Passed n i s s'
unfolding pass
pass_lem zero i ran s fit = (
  s,
  refl,
  record {
    printed = sym (append-nil s.out);
    fewer = λ j lo hi. absurd (omega arith);
    fit = fit;
    before = λ j h. refl;
  },
)
pass_lem (suc n) i ran s fit =
    let turn = visit_lem i s (fit i (omega arith) (omega arith)) in
    let s' : Sys = turn.0 in
    let same : (j : ℕ) → i ≢ j → s'.t j ≡ s.t j = turn.2.others in
    let rest =
      pass_lem n (i + 1) (if ltb 0 (left_in s i) then true else ran) s'
        (λ j lo hi. rw (same j (omega arith)) (fit j (omega arith) (omega arith))) in
    let flags =
      any_left-agree n (i + 1) (left_in s') (left_in s) (if ltb 0 (left_in s i) then true else ran)
        (λ j lo hi. ap turns_left (same j (omega arith))) in
    (rest.0, rw (turn.1, ◌>>=◌, set_ran_lem, rest.1, flags) refl, join turn.2 rest.2)

round_text_idle :
    (left : ℕ → ℕ) → ((j : ℕ) → j < nthread → left j ≡ 0) → round_text nthread 0 left ≡ []
round_text_idle left h = rw (h 0 (omega arith), h 1 (omega arith), h 2 (omega arith)) refl

-- Once no thread is left, the rounds print nothing.
rounds_text_idle :
    (k : ℕ) (left : ℕ → ℕ) → ((j : ℕ) → j < nthread → left j ≡ 0) → rounds_text k left ≡ []
unfolding rounds_text
rounds_text_idle zero left h = refl
rounds_text_idle (suc k) left h =
    rw (h 0 (omega arith), h 1 (omega arith), h 2 (omega arith))
      (rounds_text_idle k (λ j. left j - 1) (λ j lt. rw (h j lt)))

rounds_text-agree :
    (k : ℕ) (f g : ℕ → ℕ) → ((j : ℕ) → j < nthread → f j ≡ g j) → rounds_text k f ≡ rounds_text k g
unfolding rounds_text
rounds_text-agree zero f g h = refl
rounds_text-agree (suc k) f g h =
    ap₂ ◌++◌ (round_text-agree nthread 0 f g (λ j lo hi. h j hi))
      (rounds_text-agree k _ _ (λ j lt. ap (λ k. k - 1) (h j lt)))

-- The round did not set `ran`, so no thread had a turn left.
idle_left :
    (left : ℕ → ℕ) → any_left nthread 0 left false ≡ false → (j : ℕ) → j < nthread → left j ≡ 0
idle_left left e zero lt = ground arith
idle_left left e (suc zero) lt = ground arith
idle_left left e (suc (suc zero)) lt = ground arith
idle_left left e (suc (suc (suc j))) lt = absurd (omega arith)

-- A table of threads, each at an end or at a place where it can wait.
abbrev pub AreThreads : Sys → Type 0
AreThreads s = (j : ℕ) → j < nthread → IsThread j (s.t j)

-- None of the threads can run any more.
abbrev pub AllEnded : Sys → Type 0
AllEnded s = (j : ℕ) → j < nthread → turns_left (s.t j) ≡ 0

Ends : ℕ → Sys → Type 0
Ends f s =
    (s' : Sys) × (schedule (suc f) s ≡ some s')
    × (s'.out ≡ s.out ++ rounds_text f (λ j. turns_left (s.t j)))
    × AllEnded s'

-- the last round, in which no thread ran
last_round :
    (f : ℕ) (s s' : Sys)
    → any_left nthread 0 (left_in s) false ≡ false
    → pass nthread 0 (false, s) ≡ some (any_left nthread 0 (left_in s) false, s')
    → Passed nthread 0 s s'
    → Ends f s
unfolding schedule Ends
last_round f s s' idle e p =
    let none_left = idle_left (left_in s) idle in
    (
      s',
      rw (e, ◌>>=◌, idle) refl,
      p.printed
          ∙ ap (λ t. s.out ++ t)
              (round_text_idle _ none_left ∙ sym (rounds_text_idle f _ none_left)),
      λ j lt. p.fewer j (omega arith) lt ∙ ap (λ k. k - 1) (none_left j lt),
    )

-- a round in which a thread ran, before the others
next_round :
    (f : ℕ) (s s' : Sys)
    → any_left nthread 0 (left_in s) false ≡ true
    → pass nthread 0 (false, s) ≡ some (any_left nthread 0 (left_in s) false, s')
    → Passed nthread 0 s s'
    → Ends f s'
    → Ends (suc f) s
unfolding schedule Ends rounds_text
next_round f s s' busy e p rest = (
  rest.0,
  rw (e, ◌>>=◌, busy) rest.1,
  rest.2
      ∙ ap₂ ◌++◌ p.printed (rounds_text-agree f _ _ (λ j lt. p.fewer j (omega arith) lt))
      ∙ append_assoc s.out (round_text nthread 0 (left_in s)) (rounds_text f _),
  rest.3,
)

-- No thread has a turn left, so none ran.
none_busy :
    (left : ℕ → ℕ) → ((j : ℕ) → j < nthread → left j ≤ 0) → any_left nthread 0 left false ≢ true
none_busy left h e = ground (arith, h 0, h 1, h 2)

schedule-Ends :
    (f : ℕ) (s : Sys) → AreThreads s → ((j : ℕ) → j < nthread → turns_left (s.t j) ≤ f) → Ends f s
schedule-Ends zero s fit enough =
    let round = pass_lem nthread 0 false s (λ j lo hi. fit j hi) in
    elim (Bool-cases (any_left nthread 0 (left_in s) false)) [
      | inr idle ↦ last_round 0 s round.0 idle round.1 round.2
      | inl busy ↦ absurd (none_busy (left_in s) enough busy)
    ]
schedule-Ends (suc f) s fit enough =
    let round = pass_lem nthread 0 false s (λ j lo hi. fit j hi) in
    let fewer = round.2.fewer in
    elim (Bool-cases (any_left nthread 0 (left_in s) false)) [
      | inr idle ↦ last_round (suc f) s round.0 idle round.1 round.2
      | inl busy ↦ next_round f s round.0 busy round.1 round.2 (
          schedule-Ends f round.0 (λ j lt. round.2.fit j (omega arith) lt)
            (λ j lt. omega (arith, fewer j (omega arith) lt, enough j lt)))
    ]

-- With a round for each turn that a thread has left, and one more, the scheduler comes to its end. Until
-- then the threads take turns: each round prints the next text of every thread that is left, in the order of
-- the table. In the end no thread can run.
pub schedule-rounds :
    (f : ℕ) (s : Sys)
    → AreThreads s
    → ((j : ℕ) → j < nthread → turns_left (s.t j) ≤ f)
    → (s' : Sys) × (schedule (suc f) s ≡ some s')
      × (s'.out ≡ s.out ++ rounds_text f (λ j. turns_left (s.t j)))
      × AllEnded s'
unfolding Ends
schedule-rounds f s fit enough = schedule-Ends f s fit enough
