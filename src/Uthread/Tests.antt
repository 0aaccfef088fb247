-- ===== src/Uthread/Tests.antt =====
-- Runs of the scheduler of user/uthread.c.
use kernel_hobby.Base.{
  codes, length, ◌+◌, ◌*◌, ℕ, zero, suc, ◌≡◌, ◌≤◌, ◌<◌, refl, some, none, [], Option, List, ◌++◌,
  ◌==◌, if◌then◌else◌, arith,
}
use kernel_hobby.Uthread.Turns.{turns_left}
use kernel_hobby.Uthread.Rounds.{AreThreads, AllEnded, rounds_text, schedule-rounds}
use kernel_hobby.Uthread.{
  step_text, done_text, worker_entry, after_uyield, nthread, Sys, in_scheduler, after_texit, start,
  schedule, pass, visit, enter, worker_loop, uyield, texit, uswitch, puts, tcreate,
}

blank : Sys
blank = record {
  sched = in_scheduler;
  t = λ i. record { ra = after_texit; sp = 0; state = 0 };
  current = 0;
  out = [];
}

printed : Option Sys → List ℕ
printed (some s) = s.out
printed none = []

-- One thread is half-way, one at its end, and one has not begun.
mixed : Sys
mixed = record blank {
  t = λ i.
      if i == 0
      then record { ra = after_uyield 0 1; sp = 0; state = 1 }
      else if i == 1
      then record { ra = after_texit; sp = 0; state = 0 }
      else record { ra = worker_entry; sp = 0; state = 1 };
}

mixed_prints :
    printed (schedule 5 mixed)
    ≡ codes
        "  [thread A] step 3\n  [thread C] step 1\n  [thread A] done\n  [thread C] step 2\n  [thread C] step 3\n  [thread C] done\n"
unfolding mixed blank printed schedule pass visit enter worker_loop uyield texit uswitch puts
    step_text done_text
mixed_prints = refl

-- All threads print four times between the two lines of `_start`.
start_prints : length (printed (start 5 blank)) ≡ 69 + 9 * 20 + 3 * 18 + 30
unfolding blank printed start schedule pass visit enter worker_loop uyield texit uswitch puts
    tcreate step_text done_text
start_prints = refl

mixed-AreThreads : AreThreads mixed
unfolding mixed blank
mixed-AreThreads zero lt e = (refl, omega arith)
mixed-AreThreads (suc zero) lt e = absurd (omega arith)
mixed-AreThreads (suc (suc zero)) lt e = tt
mixed-AreThreads (suc (suc (suc j))) lt e = absurd (omega arith)

mixed_turns : (j : ℕ) → j < nthread → turns_left (mixed.t j) ≤ 4
unfolding mixed blank
mixed_turns zero lt = omega arith
mixed_turns (suc zero) lt = omega arith
mixed_turns (suc (suc zero)) lt = omega arith
mixed_turns (suc (suc (suc j))) lt = absurd (omega arith)

schedule-rounds_example :
    (s' : Sys) × (schedule 5 mixed ≡ some s')
    × (s'.out ≡ mixed.out ++ rounds_text 4 (λ j. turns_left (mixed.t j)))
    × AllEnded s'
schedule-rounds_example = schedule-rounds 4 mixed mixed-AreThreads mixed_turns
