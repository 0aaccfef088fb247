-- ===== src/Proc/Table.antt =====
-- src/proc.h: the types of the process table, and searches in it.
use kernel_hobby.Base.{
  ℕ, zero, suc, ◌+◌, ◌≤◌, ◌<◌, ◌≡◌, sym, ap, subst, inl, inr, Bool, true, false, Option, none, some,
  List, arith, ◌==◌, if◌then◌else◌, Bool-cases, ℕ_discrete,
}

abbrev pub nproc : ℕ
nproc = 8

-- `enum proc_state`
pub data ProcState : Type 0 where
  unused runnable running sleeping zombie : ProcState

-- What a process sleeps on: `0`, the process in a slot, or the input buffer of the console.
pub data Chan : Type 0 where
  no_chan on_input : Chan
  on_proc : ℕ → Chan

-- where `swtch` goes on: the functions of proc.c that a new process starts in, and any other address
pub data Entry : Type 0 where
  nowhere thread_start enter_user forkret : Entry
  at : ℕ → Entry

-- the two registers of `struct context` that the code sets
pub record Context : Type 0 where
  pub ra : Entry
  pub sp : ℕ

-- `struct proc`. Page addresses are 0 for the null pointer, and `fn` is the number of the thread's body.
pub record Proc : Type 0 where
  pub state : ProcState
  pub context : Context
  pub kstack : ℕ
  pub fn : ℕ
  pub counter : ℕ
  pub name : List ℕ
  pub pagetable : ℕ
  pub is_user : Bool
  pub pid : ℕ
  pub ucode : ℕ
  pub ustack : ℕ
  pub chan : Chan
  pub parent : Option ℕ
  pub tf_va : ℕ
  pub heap_top : ℕ
  pub mmap_base : ℕ
  pub mmap_start : ℕ
  pub mmap_size : ℕ

-- the tests `==` on states, channels and pointers to processes
abbrev pub same_state : ProcState → ProcState → Bool
same_state unused unused = true
same_state runnable runnable = true
same_state running running = true
same_state sleeping sleeping = true
same_state zombie zombie = true
same_state _ _ = false

abbrev pub same_chan : Chan → Chan → Bool
same_chan no_chan no_chan = true
same_chan on_input on_input = true
same_chan (on_proc i) (on_proc j) = i == j
same_chan _ _ = false

abbrev pub is_slot : ℕ → Option ℕ → Bool
is_slot i none = false
is_slot i (some j) = i == j

-- the first of the `n` slots from `i` on that passes the test
unfoldable pub first_slot : (ℕ → Bool) → ℕ → ℕ → Option ℕ
first_slot test zero i = none
first_slot test (suc n) i = let rest = first_slot test n (suc i) in if test i then some i else rest

pub first_slot-some :
    (test : ℕ → Bool) (n i : ℕ) {r : ℕ}
    → first_slot test n i ≡ some r
    → (i ≤ r) × (r < i + n) × (test r ≡ true) × ((j : ℕ) → i ≤ j → j < r → test j ≡ false)
unfolding first_slot
first_slot-some test zero i h = absurd (ground arith)
first_slot-some test (suc n) i {r} h = elim (Bool-cases (test i)) [
  | inl t ↦
      let e : i ≡ r = ground (arith, t) in
      (omega arith, omega arith, subst (λ j. test j ≡ true) e t, λ j a b. absurd (omega arith))
  | inr f ↦
      let later : first_slot test n (suc i) ≡ some r = ground (arith, f) in
      let found = first_slot-some test n (suc i) later in
      (
        omega (arith, found.0),
        omega (arith, found.1),
        found.2,
        λ j a b. elim (ℕ_discrete i j) [
          | yes e ↦ subst (λ j. test j ≡ false) e f
          | no ne ↦ found.3 j (omega arith) b
        ],
      )
]

pub first_slot-none :
    (test : ℕ → Bool) (n i : ℕ)
    → first_slot test n i ≡ none
    → (j : ℕ) → i ≤ j
    → j < i + n
    → test j ≡ false
unfolding first_slot
first_slot-none test zero i h j a b = absurd (omega arith)
first_slot-none test (suc n) i h j a b = elim (Bool-cases (test i)) [
  | inl t ↦ absurd (ground (arith, t))
  | inr f ↦
      let later : first_slot test n (suc i) ≡ none = ground (arith, f) in
      elim (ℕ_discrete i j) [
        | yes e ↦ subst (λ j. test j ≡ false) e f
        | no ne ↦ first_slot-none test n (suc i) later j (omega arith) (omega arith)
      ]
]

-- The slot `r` is found if it passes and none before it does.
pub first_slot_first :
    (test : ℕ → Bool) (n i r : ℕ)
    → i ≤ r
    → r < i + n
    → test r ≡ true
    → ((j : ℕ) → i ≤ j → j < r → test j ≡ false)
    → first_slot test n i ≡ some r
unfolding first_slot
first_slot_first test zero i r a b t before = absurd (omega arith)
first_slot_first test (suc n) i r a b t before = elim (ℕ_discrete i r) [
  | yes e ↦ let here : test i ≡ true = subst (λ j. test j ≡ true) (sym e) t in rw here (ap some e)
  | no ne ↦ rw (before i (omega arith) (omega arith)) (
      first_slot_first test n (suc i) r (omega arith) (omega arith) t
        (λ j x y. before j (omega arith) y))
]
