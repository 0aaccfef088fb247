-- ===== src/Uthread/Turns.antt =====
-- user/uthread.c: what a thread does with its turn.
use kernel_hobby.Base.{
  ℕ, zero, suc, ◌+◌, ◌-◌, ◌≤◌, ◌≡◌, refl, sym, ◌≢◌, inl, inr, List, [], ◌++◌, some, ltb, ◌==◌,
  ==_iff, true, false, if◌then◌else◌, Bool-cases, arith, append-nil,
}
use kernel_hobby.Uthread.{
  Point, worker_entry, after_uyield, after_texit, in_scheduler, Thread, Sys, step_text, done_text,
  visit, puts, uswitch, uyield, texit, worker_loop, enter, switched, back,
}

-- how often a thread still gets the processor: for each step of `worker`, and for its end
abbrev pub turns_from : Point → ℕ
turns_from worker_entry = 4
turns_from (after_uyield id i) = 3 - i
turns_from after_texit = 0
turns_from in_scheduler = 0

abbrev pub turns_left : Thread → ℕ
turns_left th = if th.state == 1 then turns_from th.ra else 0

-- a place where the thread `i` can wait
abbrev pub Waits : ℕ → Point → Type 0
Waits i worker_entry = Unit
Waits i (after_uyield id k) = (id ≡ i) × (k ≤ 2)
Waits i after_texit = ⊥
Waits i in_scheduler = ⊥

-- a thread that is at an end, or runnable and at a place where it can wait
abbrev pub IsThread : ℕ → Thread → Type 0
IsThread i th = th.state ≡ 1 → Waits i th.ra

-- what a thread prints when it gets the processor with `k` turns left
abbrev pub turn_text : ℕ → ℕ → List ℕ
turn_text i zero = []
turn_text i (suc zero) = done_text i
turn_text i (suc (suc k)) = step_text i (2 - k)

-- one round of the loop over the threads, from `s` to `s'`
pub record Turned (i : ℕ) (s s' : Sys) : Type 0 where
  pub printed : s'.out ≡ s.out ++ turn_text i (turns_left (s.t i))
  pub fewer : turns_left (s'.t i) ≡ turns_left (s.t i) - 1
  pub fit : IsThread i (s'.t i)
  pub others : (j : ℕ) → i ≢ j → s'.t j ≡ s.t j

-- the state when the thread `i` gets the processor, and when it has given it back in the round `k`
abbrev given_to : ℕ → Sys → Sys
given_to i s = record s { sched = in_scheduler; current = i }

abbrev after_turn : ℕ → ℕ → Sys → Sys
after_turn i k s = (worker_loop i k (given_to i s)).1

worker_loop-back :
    (i k : ℕ) (s : Sys) → back (worker_loop i k (given_to i s)) ≡ some (after_turn i k s)
unfolding worker_loop uyield texit uswitch puts
worker_loop-back i k s = ground arith

-- A thread that waits at `p` goes on with the round `k` of `worker`.
visit_at :
    (i k : ℕ) (s : Sys) (p : Point)
    → (s.t i).state ≡ 1
    → (s.t i).ra ≡ p
    → enter p (given_to i s) ≡ some (worker_loop i k (given_to i s))
    → visit i s ≡ some (true, after_turn i k s)
unfolding visit uswitch
visit_at i k s p st ra e = rw (st, ra, e, worker_loop-back i k s, switched) refl

after_turn-Turned :
    (i k : ℕ) (s : Sys)
    → (s.t i).state ≡ 1
    → k ≤ 3
    → turns_from (s.t i).ra ≡ 4 - k
    → Turned i s (after_turn i k s)
unfolding worker_loop uyield texit uswitch puts
after_turn-Turned i zero s st h l = ground arith
after_turn-Turned i (suc zero) s st h l = ground arith
after_turn-Turned i (suc (suc zero)) s st h l = ground arith
after_turn-Turned i (suc (suc (suc zero))) s st h l = ground arith
after_turn-Turned i (suc (suc (suc (suc k)))) s st h l = absurd (omega arith)

-- A turn of a runnable thread.
visit-Turned :
    (i : ℕ) (s : Sys) (p : Point)
    → (s.t i).ra ≡ p
    → (s.t i).state ≡ 1
    → Waits i p
    → (s' : Sys) × (visit i s ≡ some (true, s')) × Turned i s s'
unfolding enter
visit-Turned i s worker_entry ra st w = (
  after_turn i 0 s,
  visit_at i 0 s _ st ra refl,
  after_turn-Turned i 0 s st (omega arith) (rw ra),
)
visit-Turned i s (after_uyield id k) ra st w = (
  after_turn i (k + 1) s,
  visit_at i (k + 1) s _ st ra (rw w.0),
  after_turn-Turned i (k + 1) s st (omega arith) (rw ra (omega arith)),
)
visit-Turned i s after_texit ra st w = absurd w
visit-Turned i s in_scheduler ra st w = absurd w

visit_idle : (i : ℕ) (s : Sys) → ((s.t i).state == 1) ≡ false → visit i s ≡ some (false, s)
unfolding visit
visit_idle i s e = rw e

Waits-lt : (i : ℕ) (p : Point) → Waits i p → ltb 0 (turns_from p) ≡ true
Waits-lt i worker_entry w = refl
Waits-lt i (after_uyield id k) w = ground arith
Waits-lt i after_texit w = absurd w
Waits-lt i in_scheduler w = absurd w

-- A round of the loop over the threads, whether the thread is runnable or not.
pub visit_lem :
    (i : ℕ) (s : Sys)
    → IsThread i (s.t i)
    → (s' : Sys) × (visit i s ≡ some (ltb 0 (turns_left (s.t i)), s')) × Turned i s s'
visit_lem i s fit = elim (Bool-cases ((s.t i).state == 1)) [
  | inl e ↦
      let st = (==_iff (s.t i).state 1).0 e in
      let turn = visit-Turned i s (s.t i).ra refl st (fit st) in
      (turn.0, rw (e, Waits-lt i (s.t i).ra (fit st)) turn.1, turn.2)
  | inr e ↦ (
    s,
    rw e (visit_idle i s e),
    record {
      printed = rw e (sym (append-nil s.out));
      fewer = rw e;
      fit = fit;
      others = λ j h. refl;
    },
  )
]
