-- ===== src/Proc/Wait.antt =====
-- src/proc.c: a parent that waits is woken by the exit of its child, and then finds it.
use kernel_hobby.Base.{
  ℕ, ◌<◌, ◌≡◌, ◌≢◌, refl, sym, ◌∙◌, ap, ap₂, inl, inr, Bool, true, false, ◌&&◌, some, arith, ◌==◌,
  update_self, update_ne, Bool-cases, Option-cases, ℕ_discrete, ltb,
}
use kernel_hobby.Proc.{
  Kernel, Waited, reaped, no_children, asleep, proc_wait, proc_exit, sleep, sleep_resumed, dispatch,
  wakeup, wake, is_child, is_dead_child, set_proc,
}
use kernel_hobby.Proc.Table.{
  Proc, ProcState, unused, runnable, running, sleeping, zombie, Chan, on_proc, same_state,
  same_chan, is_slot, nproc, first_slot, first_slot-none, first_slot_first,
}

is_asleep : Waited → Bool
is_asleep (reaped pid) = false
is_asleep no_children = false
is_asleep asleep = true

-- If `proc_wait` goes to sleep, no child is a zombie.
asleep_lem :
    (id p : ℕ) (k : Kernel)
    → (proc_wait id p k).0 ≡ asleep
    → (((j : ℕ) → j < nproc → is_dead_child k p j ≡ false))
      × ((proc_wait id p k).1 ≡ sleep id (on_proc p) k)
unfolding proc_wait is_asleep
asleep_lem id p k h = elim (Option-cases (first_slot (is_dead_child k p) nproc 0)) [
  | inr (i, e) ↦
      let done : (proc_wait id p k).0 ≡ reaped (k.proctable i).pid = rw (proc_wait, e) refl in
      absurd (ground (arith, ap is_asleep (sym done ∙ h)))
  | inl e ↦ elim (Option-cases (first_slot (is_child k p) nproc 0)) [
    | inl e' ↦
        let done : (proc_wait id p k).0 ≡ no_children = rw (proc_wait, e, e') refl in
        absurd (ground (arith, ap is_asleep (sym done ∙ h)))
    | inr (i, e') ↦ (
      λ j lt. first_slot-none (is_dead_child k p) nproc 0 e j (omega arith) (omega arith),
      rw (proc_wait, e, e') refl,
    )
  ]
]

wake_parent : (c : Chan) (p : Proc) → (wake c p).parent ≡ p.parent
unfolding wake
wake_parent c p = elim (Bool-cases (same_state p.state sleeping && same_chan p.chan c)) [
  | inl t ↦ rw t refl
  | inr f ↦ rw f refl
]

wake_pid : (c : Chan) (p : Proc) → (wake c p).pid ≡ p.pid
unfolding wake
wake_pid c p = elim (Bool-cases (same_state p.state sleeping && same_chan p.chan c)) [
  | inl t ↦ rw t refl
  | inr f ↦ rw f refl
]

-- A process that sleeps is no zombie, woken or not.
wake_zombie : (c : Chan) (p : Proc) → same_state (wake c p).state zombie ≡ same_state p.state zombie
unfolding wake
wake_zombie c p = elim (Bool-cases (same_state p.state sleeping)) [
  | inr awake ↦ rw awake refl
  | inl rest ↦
      let dead : same_state p.state zombie ≡ false = sleeping_zombie p.state rest in
      elim (Bool-cases (same_chan p.chan c)) [
        | inl t ↦ rw (rest, t, dead) refl
        | inr f ↦ rw (rest, f) refl
      ]
]
  where
    sleeping_zombie : (q : ProcState) → same_state q sleeping ≡ true → same_state q zombie ≡ false
    sleeping_zombie unused h = refl
    sleeping_zombie runnable h = refl
    sleeping_zombie running h = refl
    sleeping_zombie sleeping h = refl
    sleeping_zombie zombie h = absurd (ground (arith, h))

-- the process `p` asleep until a child of it ends
abbrev waiting : ℕ → Kernel → Kernel
waiting p k = set_proc p (record (k.proctable p) { chan = on_proc p; state = sleeping }) k

sleep_run : (id p : ℕ) (k : Kernel) → k.cpu_proc id ≡ some p → sleep id (on_proc p) k ≡ waiting p k
unfolding sleep
sleep_run id p k h = rw (sleep, h) refl

-- the kernel after the child `c` of `p` ended
abbrev ended : ℕ → ℕ → Kernel → Kernel
ended p c k =
    set_proc c (record ((wakeup (on_proc p) k).proctable c) { state = zombie })
      (wakeup (on_proc p) k)

exit_run : (p c : ℕ) (k : Kernel) → (k.proctable c).parent ≡ some p → proc_exit c k ≡ ended p c k
unfolding proc_exit
exit_run p c k h = rw (proc_exit, h) refl

wakeup_at :
    (c : Chan) (k : Kernel) (j : ℕ) → j < nproc → (wakeup c k).proctable j ≡ wake c (k.proctable j)
unfolding wakeup
wakeup_at c k j lt = let there : ltb j nproc ≡ true = ground arith in rw there refl

-- The sleeping parent is made RUNNABLE.
parent_woken :
    (p c : ℕ) (k : Kernel)
    → p < nproc
    → c ≢ p
    → ((ended p c (waiting p k)).proctable p).state ≡ runnable
unfolding wake
parent_woken p c k lt ne =
    let here : (waiting p k).proctable p
        ≡ record (k.proctable p) { chan = on_proc p; state = sleeping } =
      update_self k.proctable p _ in
    let test : (p == p) ≡ true = ground arith in
    ap (λ r. r.state)
      (update_ne (wakeup (on_proc p) (waiting p k)).proctable c p _ ne
        ∙ wakeup_at (on_proc p) (waiting p k) p lt
        ∙ ap (wake (on_proc p)) here)
    ∙ rw test refl

-- A slot other than those of the parent and the child.
bystander :
    (p c j : ℕ) (k : Kernel)
    → j < nproc
    → j ≢ p
    → j ≢ c
    → is_dead_child (ended p c (waiting p k)) p j ≡ is_dead_child k p j
bystander p c j k lt np nc =
    let e : (ended p c (waiting p k)).proctable j ≡ wake (on_proc p) (k.proctable j) =
      update_ne (wakeup (on_proc p) (waiting p k)).proctable c j _ (λ e. nc (sym e))
      ∙ wakeup_at (on_proc p) (waiting p k) j lt
      ∙ ap (wake (on_proc p)) (update_ne k.proctable p j _ (λ e. np (sym e))) in
    ap (λ r. is_slot p r.parent && same_state r.state zombie) e
    ∙ ap₂ (λ a b. is_slot p a && b) (wake_parent (on_proc p) (k.proctable j))
        (wake_zombie (on_proc p) (k.proctable j))

-- The slot of the child.
child_ended :
    (p c : ℕ) (k : Kernel)
    → c < nproc
    → c ≢ p
    → (k.proctable c).parent ≡ some p
    → (is_dead_child (ended p c (waiting p k)) p c ≡ true)
      × (((ended p c (waiting p k)).proctable c).pid ≡ (k.proctable c).pid)
child_ended p c k lt ne child =
    let w = wakeup (on_proc p) (waiting p k) in
    let e : (ended p c (waiting p k)).proctable c ≡ record (w.proctable c) { state = zombie } =
      update_self w.proctable c _ in
    let before : w.proctable c ≡ wake (on_proc p) (k.proctable c) =
      wakeup_at (on_proc p) (waiting p k) c lt
      ∙ ap (wake (on_proc p)) (update_ne k.proctable p c _ (λ e. ne (sym e))) in
    let parent : (w.proctable c).parent ≡ some p =
      ap (λ r. r.parent) before ∙ wake_parent (on_proc p) (k.proctable c) ∙ child in
    let mine : is_slot p (some p) ≡ true = ground arith in
    (
      ap (λ r. is_slot p r.parent && same_state r.state zombie) e
          ∙ ap (λ o. is_slot p o && true) parent
          ∙ rw mine refl,
      ap (λ r. r.pid) e ∙ ap (λ r. r.pid) before ∙ wake_pid (on_proc p) (k.proctable c),
    )

-- the process `p`, made RUNNABLE, runs again on the core `id` and leaves `sleep`
abbrev again : ℕ → ℕ → Kernel → Kernel
again id p k = sleep_resumed p (dispatch id p k)

again_at : (id p j : ℕ) (k : Kernel) → p ≢ j → (again id p k).proctable j ≡ k.proctable j
unfolding dispatch sleep_resumed
again_at id p j k ne =
    update_ne (dispatch id p k).proctable p j _ ne
    ∙ elim (Bool-cases (same_state (k.proctable p).state runnable)) [
      | inl t ↦ rw (dispatch, t) (update_ne k.proctable p j _ ne)
      | inr f ↦ rw (dispatch, f) refl
    ]

again_self :
    (id p : ℕ) (k : Kernel)
    → (k.proctable p).state ≡ runnable
    → ((again id p k).proctable p).state ≡ running
unfolding dispatch sleep_resumed
again_self id p k h =
    let test : same_state (k.proctable p).state runnable ≡ true =
      ap (λ q. same_state q runnable) h in
    let started : ((dispatch id p k).proctable p).state ≡ running =
      rw (dispatch, test) (ap (λ r. r.state) (update_self k.proctable p _)) in
    ap (λ r. r.state) (update_self (dispatch id p k).proctable p _) ∙ started

proc_wait_reaped :
    (id p c : ℕ) (k : Kernel)
    → first_slot (is_dead_child k p) nproc 0 ≡ some c
    → (proc_wait id p k).0 ≡ reaped (k.proctable c).pid
unfolding proc_wait
proc_wait_reaped id p c k h = rw (proc_wait, h) refl

-- Let the process `p`, on the core `id`, go to sleep in `proc_wait`, and let its child `c` end after that.
-- Then `p` is RUNNABLE, and when a core `id'` runs it again, `proc_wait` returns the pid of `c`: the
-- wakeup is not lost.
pub exit-proc_wait :
    (id id' p c : ℕ) (k : Kernel)
    → p < nproc
    → c < nproc
    → c ≢ p
    → k.cpu_proc id ≡ some p
    → (k.proctable c).parent ≡ some p
    → (proc_wait id p k).0 ≡ asleep
    → (((proc_exit c (proc_wait id p k).1).proctable p).state ≡ runnable)
      × ((proc_wait id' p (sleep_resumed p (dispatch id' p (proc_exit c (proc_wait id p k).1)))).0
          ≡ reaped (k.proctable c).pid)
exit-proc_wait id id' p c k lp lc ne here child h =
    let s = asleep_lem id p k h in
    let parent : ((waiting p k).proctable c).parent ≡ some p =
      ap (λ r. r.parent) (update_ne k.proctable p c _ (λ e. ne (sym e))) ∙ child in
    let run : proc_exit c (proc_wait id p k).1 ≡ ended p c (waiting p k) =
      ap (proc_exit c) (s.1 ∙ sleep_run id p k here) ∙ exit_run p c (waiting p k) parent in
    let woken = parent_woken p c k lp ne in
    let k2 = ended p c (waiting p k) in
    let k3 = again id' p k2 in
    let last = child_ended p c k lc ne child in
    let same : (j : ℕ) → p ≢ j → is_dead_child k3 p j ≡ is_dead_child k2 p j =
      λ j nj. ap (λ r. is_slot p r.parent && same_state r.state zombie) (again_at id' p j k2 nj) in
    let found : first_slot (is_dead_child k3 p) nproc 0 ≡ some c =
      first_slot_first (is_dead_child k3 p) nproc 0 c (omega arith) (omega arith)
        (same c (λ e. ne (sym e)) ∙ last.0)
        (λ j a b. elim (ℕ_discrete p j) [
          | yes e ↦
              let up : same_state (k3.proctable j).state zombie ≡ false =
                ap (λ q. same_state q zombie)
                  (ap (λ i. (k3.proctable i).state) (sym e) ∙ again_self id' p k2 woken) in
              ground (arith, up)
          | no nj ↦
              same j nj
              ∙ bystander p c j k (omega arith) (λ e. nj (sym e)) (λ e. absurd (omega arith))
              ∙ s.0 j (omega arith)
        ]) in
    rw run (
      woken,
      proc_wait_reaped id' p c k3 found
          ∙ ap reaped (ap (λ r. r.pid) (again_at id' p c k2 (λ e. ne (sym e))) ∙ last.1),
    )
