-- ===== src/Uthread.antt =====
-- user/uthread.c: cooperative threads and their scheduler. A context is the place at which the code goes on
-- when `uswitch` loads it, with the local variables that the place needs.
pub mod Turns
pub mod Rounds
mod Tests
use kernel_hobby.Base.{
  ℕ, zero, suc, ◌+◌, ◌-◌, ◌*◌, ◌/◌, ◌^◌, Bool, true, false, not, Option, none, some, List, [], ◌∷◌,
  ◌++◌, update, ltb, ◌==◌, if◌then◌else◌, codes, ◌>>=◌,
}

abbrev pub nthread : ℕ
nthread = 3

abbrev pub heap_start : ℕ
heap_start = 0x10000

abbrev pub stacksz : ℕ
stacksz = 2048

-- the start of `worker`, the return of its call of `uyield` in the round `i`, the return of `texit`, and the
-- return of `uswitch` in the scheduler
pub data Point : Type 0 where
  worker_entry : Point
  after_uyield : ℕ → ℕ → Point
  after_texit in_scheduler : Point

-- `struct thread`, with `ctx.ra` and the registers of the place as one `Point`, and `ctx.sp` as `tcreate`
-- sets it: what `uswitch` keeps there later lies below, in the same stack.
pub record Thread : Type 0 where
  pub ra : Point
  pub sp : ℕ
  pub state : ℕ

-- `struct sys`, with the bytes that `sys_putchar` sent
pub record Sys : Type 0 where
  pub sched : Point
  pub t : ℕ → Thread
  pub current : ℕ
  pub out : List ℕ

-- the contexts that `uswitch` is called with
pub data Slot : Type 0 where
  of_scheduler : Slot
  of_thread : ℕ → Slot

unfoldable pub puts : List ℕ → Sys → Sys
puts text s = record s { out = s.out ++ text }

abbrev pub keep_point : Slot → Point → Sys → Sys
keep_point of_scheduler p s = record s { sched = p }
keep_point (of_thread i) p s = record s { t = update s.t i (record (s.t i) { ra = p }) }

abbrev pub load_point : Slot → Sys → Point
load_point of_scheduler s = s.sched
load_point (of_thread i) s = (s.t i).ra

-- `uswitch(old, neu)`, called so that it returns at `p`: the place where the code goes on
unfoldable pub uswitch : Slot → Slot → Point → Sys → Point × Sys
uswitch old neu p s = let s' = keep_point old p s in (load_point neu s', s')

unfoldable pub uyield : Point → Sys → Point × Sys
uyield p s = uswitch (of_thread s.current) of_scheduler p s

unfoldable pub texit : Sys → Point × Sys
texit s =
    let c = s.current in
    uswitch (of_thread c) of_scheduler after_texit
      (record s { t = update s.t c (record (s.t c) { state = 0 }) })

unfoldable pub step_text : ℕ → ℕ → List ℕ
step_text id i = codes "  [thread " ++ (b'A' + id) ∷ (codes "] step " ++ (b'1' + i) ∷ b'\n' ∷ [])

unfoldable pub done_text : ℕ → List ℕ
done_text id = codes "  [thread " ++ (b'A' + id) ∷ (codes "] done" ++ b'\n' ∷ [])

-- the loop of `worker` from the test `i < 3` to the next switch
unfoldable pub worker_loop : ℕ → ℕ → Sys → Point × Sys
worker_loop id i s =
    if ltb i 3
    then uyield (after_uyield id i) (puts (step_text id i) s)
    else texit (puts (done_text id) s)

-- the code at a place, up to the next switch. Nothing goes on behind `texit`.
unfoldable pub enter : Point → Sys → Option (Point × Sys)
enter worker_entry s = some (worker_loop s.current 0 s)
enter (after_uyield id i) s = some (worker_loop id (i + 1) s)
enter after_texit s = none
enter in_scheduler s = none

abbrev pub back : Point × Sys → Option Sys
back (in_scheduler, s) = some s
back (worker_entry, s) = none
back (after_uyield id i, s) = none
back (after_texit, s) = none

unfoldable pub tcreate : ℕ → Sys → Sys
tcreate i s = record s {
  t = update s.t i (record {
    state = 1;
    ra = worker_entry;
    sp = (heap_start + 476 + (i + 1) * stacksz) / 16 * 16;
  });
}

-- the body of the loop over the threads: whether the thread ran
abbrev pub came_back : Option Sys → Option (Bool × Sys)
came_back none = none
came_back (some s) = some (true, s)

abbrev pub switched : Point × Sys → Option (Bool × Sys)
switched (p, s) = came_back (enter p s >>= back)

unfoldable pub visit : ℕ → Sys → Option (Bool × Sys)
visit i s =
    if (s.t i).state == 1
    then switched (uswitch of_scheduler (of_thread i) in_scheduler (record s { current = i }))
    else some (false, s)

abbrev pub set_ran : Bool → Bool × Sys → Bool × Sys
set_ran ran (true, s) = (true, s)
set_ran ran (false, s) = (ran, s)

-- `for (i = 0; i < NTHREAD; i++)`, with `n` threads left
unfoldable pub pass : ℕ → ℕ → Bool × Sys → Option (Bool × Sys)
pass zero i r = some r
pass (suc n) i (ran, s) = visit i s >>= λ r. pass n (i + 1) (set_ran ran r)

-- `if (!ran) break;`
abbrev pub unless_idle : (Sys → Option Sys) → Bool × Sys → Option Sys
unless_idle again (true, s) = again s
unless_idle again (false, s) = some s

-- `for (;;)`, with at most `f` rounds
unfoldable pub schedule : ℕ → Sys → Option Sys
schedule zero s = none
schedule (suc f) s = pass nthread 0 (false, s) >>= unless_idle (schedule f)

-- `_start`, up to the end of the scheduler
abbrev pub create_all : ℕ → ℕ → Sys → Sys
create_all zero i s = s
create_all (suc n) i s = create_all n (i + 1) (tcreate i s)

unfoldable pub start : ℕ → Sys → Option Sys
start f s =
    let text = codes "uthread: cooperative user threads (state on heap, no kernel changes)\n" in
    schedule f (create_all nthread 0 (puts text (record s { current = 2 ^ 32 - 1 }))) >>= λ s'.
    some (puts (codes "uthread: all threads finished\n") s')
