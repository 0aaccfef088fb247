-- ===== src/Proc/Pass.antt =====
-- src/proc.c: a pass of the scheduler over the process table, and how a thread begins. What happens between the
-- two calls of `swtch` on this core, with all that the other cores do in the meantime, is a parameter.
use kernel_hobby.Base.{
  update_self, ℕ, zero, suc, ◌+◌, ◌-◌, ◌<◌, ◌≡◌, ◌≢◌, refl, arith, Bool, true, Option, none, some,
  if◌then◌else◌, Bool-cases, inl, inr, update_ne,
}
use kernel_hobby.Vm.{satp_for}
use kernel_hobby.Proc.{Kernel, nproc, dispatch, switch_back, proc_exit}
use kernel_hobby.Proc.Table.{same_state, runnable, running}

abbrev pub current_proc : ℕ → Kernel → Option ℕ
current_proc id k = k.cpu_proc id

-- `forkret` on the core `id`: the address of the frame from which the child goes on
abbrev pub fork_return : ℕ → Kernel → Option ℕ
fork_return id k = elim (current_proc id k) [ none ↦ none | some p ↦ some (k.proctable p).tf_va ]

-- `thread_start` on the core `id`; `call` is what the function at an address does
unfoldable pub thread_body : (ℕ → Kernel → Kernel) → ℕ → Kernel → Kernel
thread_body call id k = elim (current_proc id k) [
  | none ↦ k
  | some p ↦ proc_exit p (call (k.proctable p).fn k)
]

abbrev pub is_runnable : Kernel → ℕ → Bool
is_runnable k i = same_state (k.proctable i).state runnable

module _ (run : ℕ → Kernel → Kernel) (id : ℕ) where
  -- a round of the loop over the slots
  unfoldable pub visit_slot : ℕ → Kernel → Kernel
  visit_slot i k = if is_runnable k i then switch_back id (run i (dispatch id i k)) else k

  -- the rounds from the slot `i` on, `n` of them
  unfoldable pub scan : ℕ → ℕ → Kernel → Kernel
  scan zero i k = k
  scan (suc n) i k = scan n (suc i) (visit_slot i k)

  -- the body of the endless loop of `scheduler`
  abbrev pub scheduler_pass : Kernel → Kernel
  scheduler_pass k = scan nproc 0 k

  -- The pass runs the slot `j`, which is runnable when its turn comes: in the address space of its process.
  pub record Runs (j : ℕ) (k r : Kernel) : Type 0 where
    pub before : Kernel
    pub ready : is_runnable before j ≡ true
    pub space : (dispatch id j before).satp id ≡ satp_for (before.proctable j).pagetable
    pub rest : r ≡ scan (nproc - j - 1) (j + 1) (switch_back id (run j (dispatch id j before)))

  dispatch_space :
      (j : ℕ) (k : Kernel)
      → is_runnable k j ≡ true
      → (dispatch id j k).satp id ≡ satp_for (k.proctable j).pagetable
  unfolding dispatch
  dispatch_space j k ready = rw ready (update_self k.satp id _)

  dispatch_ready :
      (i j : ℕ) (k : Kernel)
      → i ≢ j
      → is_runnable k j ≡ true
      → is_runnable (dispatch id i k) j ≡ true
  unfolding dispatch
  dispatch_ready i j k ne ready = elim (Bool-cases (is_runnable k i)) [
    | inr other ↦ rw other ready
    | inl runs ↦
        rw (runs, update_ne k.proctable i j (record (k.proctable i) { state = running }) ne) ready
  ]

  module _
      (keeps : (i j : ℕ) (k : Kernel)
        → i ≢ j
        → is_runnable k j ≡ true
        → is_runnable (run i k) j ≡ true) where
    visit_slot_ready :
        (i j : ℕ) (k : Kernel)
        → i ≢ j
        → is_runnable k j ≡ true
        → is_runnable (visit_slot i k) j ≡ true
    unfolding visit_slot switch_back
    visit_slot_ready i j k ne ready = elim (Bool-cases (is_runnable k i)) [
      | inr other ↦ rw other ready
      | inl runs ↦ rw runs (keeps i j (dispatch id i k) ne (dispatch_ready i j k ne ready))
    ]

    scan_runs :
        (d n i j : ℕ) (k : Kernel)
        → i + d ≡ j
        → d < n
        → is_runnable k j ≡ true
        → (before : Kernel) × (is_runnable before j ≡ true)
          × (scan n i k ≡ scan (n - d - 1) (j + 1) (switch_back id (run j (dispatch id j before))))
    unfolding scan visit_slot
    scan_runs d zero i j k e lt ready = elim lt [ ]
    scan_runs zero (suc n) i j k e lt ready =
        let here : i ≡ j = omega arith in
        let left : suc n - 0 - 1 ≡ n = omega arith in
        let next : j + 1 ≡ suc j = omega arith in rw here (k, ready, rw (left, next, ready) refl)
    scan_runs (suc d) (suc n) i j k e lt ready =
        let (before, r, eq) =
          scan_runs d n (suc i) j (visit_slot i k) (omega arith) (omega arith)
            (visit_slot_ready i j k (λ z. omega arith) ready) in
        let left : suc n - suc d - 1 ≡ n - d - 1 = omega arith in (before, r, rw left eq)

    -- If what happens while a process runs leaves every other process that is runnable so, then a pass of
    -- the scheduler runs each process that is runnable at its start, in its address space.
    pub scheduler_pass-Runs :
        (j : ℕ) (k : Kernel) → j < nproc → is_runnable k j ≡ true → Runs j k (scheduler_pass k)
    scheduler_pass-Runs j k lt ready =
        let (before, r, e) = scan_runs j nproc 0 j k (omega arith) lt ready in
        record { before = before; ready = r; space = dispatch_space j before r; rest = e }
