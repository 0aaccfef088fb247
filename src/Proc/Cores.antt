-- ===== src/Proc/Cores.antt =====
-- src/proc.c: the steps that change which process a core runs, and that no two cores run the same one.
use kernel_hobby.Base.{
  ℕ, ◌+◌, ◌⊎◌, ◌≡◌, ◌≢◌, refl, sym, ◌∙◌, ap, subst, inl, inr, true, false, Option, none, some, List,
  arith, update, update_self, update_ne, Bool-cases, Option-cases, ℕ_discrete, ltb,
}
use kernel_hobby.Proc.{
  Kernel, free_slot, make_thread, sleep, yield, dispatch, switch_back, wakeup, wake, proc_exit,
  set_proc, sleep_resumed, reap, proc_fork, proc_freeimage,
}
use kernel_hobby.Proc.Fork.{proc_fork_lem}
use kernel_hobby.Proc.Table.{
  Proc, ProcState, unused, runnable, running, sleeping, zombie, Chan, same_state, on_proc, nproc,
  first_slot-some,
}

abbrev pub state_of : Kernel → ℕ → ProcState
state_of k p = (k.proctable p).state

-- One step of one core, or of an interrupt that wakes processes. A core that stops a process goes back to
-- its scheduler in the same step, since the lock is held across `swtch`.
pub data Step (k : Kernel) : Kernel → Type 0 where
  dispatched : (id i : ℕ) → k.cpu_proc id ≡ none → Step k (dispatch id i k)
  yielded : (id : ℕ) → Step k (switch_back id (yield id k))
  slept : (id : ℕ) (c : Chan) → Step k (switch_back id (sleep id c k))
  exited : (id p : ℕ) → k.cpu_proc id ≡ some p → Step k (switch_back id (proc_exit p k))
  woken : (c : Chan) → Step k (wakeup c k)
  resumed : (p : ℕ) → Step k (sleep_resumed p k)
  cleared : (i : ℕ) → state_of k i ≡ zombie → Step k (reap i k)
  forked : (etext p f : ℕ) (r : Option ℕ × Kernel) → proc_fork etext p f k ≡ some r → Step k r.1
  made : (fn : ℕ) (name : List ℕ) → Step k (make_thread fn name k).1

pub data Steps (k : Kernel) : Kernel → Type 0 where
  done : Steps k k
  more : {k' k'' : Kernel} → Steps k k' → Step k' k'' → Steps k k''

-- The process of each core is RUNNING, and no two cores have the same.
pub record Exclusive (k : Kernel) : Type 0 where
  pub runs : (id p : ℕ) → k.cpu_proc id ≡ some p → state_of k p ≡ running
  pub alone : (id id' p : ℕ) → k.cpu_proc id ≡ some p → k.cpu_proc id' ≡ some p → id ≡ id'

-- A change of the table that keeps RUNNING every process of a core.
same_cores :
    (k k' : Kernel)
    → ((id : ℕ) → k'.cpu_proc id ≡ k.cpu_proc id)
    → ((p : ℕ) → state_of k p ≡ running → state_of k' p ≡ running)
    → Exclusive k
    → Exclusive k'
same_cores k k' cores keeps x = record {
  runs = λ id p h. keeps p (x.runs id p (sym (cores id) ∙ h));
  alone = λ id id' p h h'. x.alone id id' p (sym (cores id) ∙ h) (sym (cores id') ∙ h');
}

-- The core `id` gives up its process, and the processes of the other cores stay RUNNING.
stopped :
    (id : ℕ) (k k' : Kernel)
    → ((j : ℕ) → k'.cpu_proc j ≡ k.cpu_proc j)
    → ((j p : ℕ) → j ≢ id → k.cpu_proc j ≡ some p → state_of k' p ≡ running)
    → Exclusive k
    → Exclusive (switch_back id k')
unfolding switch_back
stopped id k k' cores keeps x = record {
  runs = λ j p h. elim (ℕ_discrete id j) [
    | yes e ↦ absurd (ground (arith, e, h))
    | no ne ↦
        keeps j p (λ e. ne (sym e)) (sym (cores j) ∙ sym (update_ne k'.cpu_proc id j none ne) ∙ h)
  ];
  alone = λ j j' p h h'. elim (ℕ_discrete id j) [
    | yes e ↦ absurd (ground (arith, e, h))
    | no ne ↦ elim (ℕ_discrete id j') [
      | yes e ↦ absurd (ground (arith, e, h'))
      | no ne' ↦
          x.alone j j' p (sym (cores j) ∙ sym (update_ne k'.cpu_proc id j none ne) ∙ h)
            (sym (cores j') ∙ sym (update_ne k'.cpu_proc id j' none ne') ∙ h')
    ]
  ];
}

-- Writing the record of a process that does not run, or one with the same state.
set_proc_keeps :
    (i p : ℕ) (q : Proc) (k : Kernel)
    → (state_of k i ≢ running) ⊎ (q.state ≡ state_of k i)
    → state_of k p ≡ running
    → state_of (set_proc i q k) p ≡ running
set_proc_keeps i p q k (inl idle) h =
    let ne : i ≢ p = λ e. idle (subst (λ j. state_of k j ≡ running) (sym e) h) in
    ap (λ r. r.state) (update_ne k.proctable i p q ne) ∙ h
set_proc_keeps i p q k (inr same) h = elim (ℕ_discrete i p) [
  | yes e ↦
      ap (λ r. r.state) (ap (update k.proctable i q) (sym e) ∙ update_self k.proctable i q)
      ∙ same
      ∙ subst (λ j. state_of k j ≡ running) (sym e) h
  | no ne ↦ ap (λ r. r.state) (update_ne k.proctable i p q ne) ∙ h
]

-- Writing the record of the process of the core `id` leaves those of the other cores.
set_proc_others :
    (id i : ℕ) (q : Proc) (k : Kernel)
    → Exclusive k
    → k.cpu_proc id ≡ some i
    → (j p : ℕ) → j ≢ id
    → k.cpu_proc j ≡ some p
    → state_of (set_proc i q k) p ≡ running
set_proc_others id i q k x here j p ne h =
    let other : i ≢ p =
      λ e. ne (x.alone j id i (subst (λ r. k.cpu_proc j ≡ some r) (sym e) h) here) in
    ap (λ r. r.state) (update_ne k.proctable i p q other) ∙ x.runs j p h

wake_running : (c : Chan) (p : Proc) → p.state ≡ running → (wake c p).state ≡ running
unfolding wake
wake_running c p h =
    let awake : same_state p.state sleeping ≡ false = ap (λ q. same_state q sleeping) h in
    rw awake h

wakeup_keeps :
    (c : Chan) (k : Kernel) (p : ℕ) → state_of k p ≡ running → state_of (wakeup c k) p ≡ running
unfolding wakeup
wakeup_keeps c k p h = elim (Bool-cases (ltb p nproc)) [
  | inl lt ↦
      let e : (wakeup c k).proctable p ≡ wake c (k.proctable p) = rw lt refl in
      ap (λ r. r.state) e ∙ wake_running c (k.proctable p) h
  | inr ge ↦
      let e : (wakeup c k).proctable p ≡ k.proctable p = rw ge refl in ap (λ r. r.state) e ∙ h
]

-- A process in a state that the code tests for does not run.
pub not_running :
    (p q : ProcState) → same_state p q ≡ true → same_state running q ≡ false → p ≢ running
not_running p q h other e =
    let same : same_state running q ≡ true = subst (λ r. same_state r q ≡ true) e h in
    absurd (ground (arith, same, other))

dispatched-Exclusive :
    (id i : ℕ) (k : Kernel) → k.cpu_proc id ≡ none → Exclusive k → Exclusive (dispatch id i k)
unfolding dispatch
dispatched-Exclusive id i k idle x = elim (Bool-cases (same_state (k.proctable i).state runnable)) [
  | inr cannot ↦ rw cannot x
  | inl can ↦
      let ready : state_of k i ≢ running = not_running (state_of k i) runnable can refl in
      let q : Proc = record (k.proctable i) { state = running } in
      let started : (j p : ℕ) → id ≡ j → update k.cpu_proc id (some i) j ≡ some p → i ≡ p =
        λ j p e h. ground (arith, e, h) in
      let kept : (j p : ℕ)
          → id ≢ j
          → update k.cpu_proc id (some i) j ≡ some p
          → k.cpu_proc j ≡ some p =
        λ j p ne h. sym (update_ne k.cpu_proc id j (some i) ne) ∙ h in
      let idle_slot : (j p : ℕ) → k.cpu_proc j ≡ some p → i ≢ p =
        λ j p h e. ready (subst (λ r. state_of k r ≡ running) (sym e) (x.runs j p h)) in
      rw can (record {
        runs = λ j p h. elim (ℕ_discrete id j) [
          | yes e ↦
              ap (λ r. r.state)
                (ap (update k.proctable i q) (sym (started j p e h)) ∙ update_self k.proctable i q)
          | no ne ↦ set_proc_keeps i p q k (inl ready) (x.runs j p (kept j p ne h))
        ];
        alone = λ j j' p h h'. elim (ℕ_discrete id j) [
          | yes e ↦ elim (ℕ_discrete id j') [
            | yes e' ↦ sym e ∙ e'
            | no ne' ↦ absurd (idle_slot j' p (kept j' p ne' h') (started j p e h))
          ]
          | no ne ↦ elim (ℕ_discrete id j') [
            | yes e' ↦ absurd (idle_slot j p (kept j p ne h) (started j' p e' h'))
            | no ne' ↦ x.alone j j' p (kept j p ne h) (kept j' p ne' h')
          ]
        ];
      })
]

yielded-Exclusive : (id : ℕ) (k : Kernel) → Exclusive k → Exclusive (switch_back id (yield id k))
unfolding yield
yielded-Exclusive id k x = elim (Option-cases (k.cpu_proc id)) [
  | inl idle ↦ rw (yield, idle) (stopped id k k (λ j. refl) (λ j p ne h. x.runs j p h) x)
  | inr (p, here) ↦
      let run : same_state (k.proctable p).state running ≡ true =
        ap (λ q. same_state q running) (x.runs id p here) in
      let q : Proc = record (k.proctable p) { state = runnable } in
      rw (yield, here, run)
        (stopped id k (set_proc p q k) (λ j. refl) (set_proc_others id p q k x here) x)
]

slept-Exclusive :
    (id : ℕ) (c : Chan) (k : Kernel) → Exclusive k → Exclusive (switch_back id (sleep id c k))
unfolding sleep
slept-Exclusive id c k x = elim (Option-cases (k.cpu_proc id)) [
  | inl idle ↦ rw (sleep, idle) (stopped id k k (λ j. refl) (λ j p ne h. x.runs j p h) x)
  | inr (p, here) ↦
      let q : Proc = record (k.proctable p) { chan = c; state = sleeping } in
      rw (sleep, here)
        (stopped id k (set_proc p q k) (λ j. refl) (set_proc_others id p q k x here) x)
]

woken-Exclusive : (c : Chan) (k : Kernel) → Exclusive k → Exclusive (wakeup c k)
unfolding wakeup
woken-Exclusive c k x = same_cores k (wakeup c k) (λ j. refl) (λ p h. wakeup_keeps c k p h) x

wakeup_cores : (c : Chan) (k : Kernel) (id : ℕ) → (wakeup c k).cpu_proc id ≡ k.cpu_proc id
unfolding wakeup
wakeup_cores c k id = refl

exited-Exclusive :
    (id p : ℕ) (k : Kernel)
    → k.cpu_proc id ≡ some p
    → Exclusive k
    → Exclusive (switch_back id (proc_exit p k))
unfolding proc_exit
exited-Exclusive id p k here x = elim (Option-cases (k.proctable p).parent) [
  | inl orphan ↦
      let q : Proc = record (k.proctable p) { state = zombie } in
      rw orphan (stopped id k (set_proc p q k) (λ j. refl) (set_proc_others id p q k x here) x)
  | inr (r, child) ↦
      let w = wakeup (on_proc r) k in
      let q : Proc = record (w.proctable p) { state = zombie } in
      let xw = woken-Exclusive (on_proc r) k x in
      rw child (
        stopped id w (set_proc p q w) (λ j. refl)
          (set_proc_others id p q w xw (wakeup_cores (on_proc r) k id ∙ here)) xw)
]

pub reap_ne : (i p : ℕ) (k : Kernel) → i ≢ p → (reap i k).proctable p ≡ k.proctable p
unfolding reap proc_freeimage
reap_ne i p k ne =
    update_ne (proc_freeimage i k).proctable i p _ ne ∙ update_ne k.proctable i p _ ne

cleared-Exclusive :
    (i : ℕ) (k : Kernel) → state_of k i ≡ zombie → Exclusive k → Exclusive (reap i k)
unfolding reap proc_freeimage
cleared-Exclusive i k dead x =
    same_cores k (reap i k) (λ j. refl)
      (λ p h.
        let idle : i ≢ p = λ e.
          not_running (state_of k i) zombie (ap (λ q. same_state q zombie) dead) refl
            (subst (λ j. state_of k j ≡ running) (sym e) h) in
        ap (λ q. q.state) (reap_ne i p k idle) ∙ h)
      x

-- A slot that `free_slot` finds is unused.
pub free_slot_lem :
    (k : Kernel) (i : ℕ) → free_slot k ≡ some i → same_state (state_of k i) unused ≡ true
unfolding free_slot
free_slot_lem k i h = (first_slot-some (λ i. same_state (k.proctable i).state unused) nproc 0 h).2

made-Exclusive :
    (fn : ℕ) (name : List ℕ) (k : Kernel) → Exclusive k → Exclusive (make_thread fn name k).1
unfolding make_thread
made-Exclusive fn name k x = elim (Option-cases (free_slot k)) [
  | inl full ↦ rw (make_thread, full) x
  | inr (i, found) ↦
      let idle = not_running (state_of k i) unused (free_slot_lem k i found) refl in
      rw (make_thread, found)
        (same_cores k _ (λ j. refl) (λ p h. set_proc_keeps i p _ k (inl idle) h) x)
]

forked-Exclusive :
    (etext p f : ℕ) (k : Kernel) (r : Option ℕ × Kernel)
    → proc_fork etext p f k ≡ some r
    → Exclusive k
    → Exclusive r.1
forked-Exclusive etext p f k r h x = elim (proc_fork_lem etext p f k r h) [
  | inl (full, failed, same) ↦ subst Exclusive (sym same) x
  | inr (i, pid, child) ↦
      let idle = not_running (state_of k i) unused (free_slot_lem k i child.slot) refl in
      subst Exclusive (sym child.result) (
        same_cores k _ (λ j. refl)
          (λ p h.
            set_proc_keeps i p _ (record k { kmem = child.kmem; next_pid = k.next_pid + 1 })
              (inl idle) h)
          x)
]

Step-Exclusive : {k k' : Kernel} → Step k k' → Exclusive k → Exclusive k'
unfolding sleep_resumed
Step-Exclusive {k} (dispatched id i idle) x = dispatched-Exclusive id i k idle x
Step-Exclusive {k} (yielded id) x = yielded-Exclusive id k x
Step-Exclusive {k} (slept id c) x = slept-Exclusive id c k x
Step-Exclusive {k} (exited id p here) x = exited-Exclusive id p k here x
Step-Exclusive {k} (woken c) x = woken-Exclusive c k x
Step-Exclusive {k} (resumed p) x =
    same_cores k _ (λ j. refl) (λ q h. set_proc_keeps p q _ k (inr refl) h) x
Step-Exclusive {k} (cleared i dead) x = cleared-Exclusive i k dead x
Step-Exclusive {k} (forked etext p f r h) x = forked-Exclusive etext p f k r h x
Step-Exclusive {k} (made fn name) x = made-Exclusive fn name k x

-- From a kernel in which each core's process is RUNNING and no two cores have the same process, every
-- sequence of steps of the scheduler, yield, sleep, exit, wakeup, fork, make_thread and the clearing of a
-- zombie leads to such a kernel: no process ever runs on two cores.
pub steps-Exclusive : {k k' : Kernel} → Steps k k' → Exclusive k → Exclusive k'
steps-Exclusive done x = x
steps-Exclusive (more before s) x = Step-Exclusive s (steps-Exclusive before x)
