-- ===== src/Proc/Fork.antt =====
-- src/proc.c: what proc_fork does to the process table.
use kernel_hobby.Base.{
  ℕ, ◌+◌, ◌<◌, ◌≡◌, ◌≢◌, ◌⊎◌, refl, sym, ◌∙◌, ap, subst, inl, inr, true, false, Option, none, some,
  arith, update, update_self, update_ne, Option-cases, some_injective, ℕ_discrete,
}
use kernel_hobby.Kalloc.{Kmem}
use kernel_hobby.Proc.{Kernel, free_slot, proc_fork, child_of, fork_memory, set_proc}
use kernel_hobby.Proc.Table.{Proc, unused, same_state}

-- The kernel after `proc_fork` of the process `p` made a child in the slot `i`.
pub record Forked (p f i : ℕ) (k k' : Kernel) : Type 0 where
  pub slot : free_slot k ≡ some i
  pub ustack : ℕ
  pub pt : ℕ
  pub kmem : Kmem
  pub result :
      k'
      ≡ set_proc i
          (child_of p f ustack pt k.next_pid (k.proctable p) (k.proctable i))
          (record k { kmem = kmem; next_pid = k.next_pid + 1 })

-- Where `proc_fork` comes to an end, it changed nothing and every slot is in use, or it made a child in
-- the first unused slot, with the next pid.
pub proc_fork_lem :
    (etext p f : ℕ) (k : Kernel) (r : Option ℕ × Kernel)
    → proc_fork etext p f k ≡ some r
    → ((free_slot k ≡ none) × (r.0 ≡ none) × (r.1 ≡ k))
      ⊎ ((i : ℕ) × (r.0 ≡ some k.next_pid) × Forked p f i k r.1)
unfolding proc_fork
proc_fork_lem etext p f k r h = elim (Option-cases (free_slot k)) [
  | inl full ↦
      let run : proc_fork etext p f k ≡ some (none, k) = rw (proc_fork, full) refl in
      let e : (none, k) ≡ r = some_injective (sym run ∙ h) in
      inl (full, sym (ap (λ x. x.0) e), sym (ap (λ x. x.1) e))
  | inr (i, found) ↦ elim (Option-cases (fork_memory etext f (k.proctable p) k.kmem)) [
    | inl stuck ↦
        let run : proc_fork etext p f k ≡ none = rw (proc_fork, found, stuck) refl in
        absurd (ground (arith, sym run ∙ h))
    | inr ((ustack, pt, m), got) ↦
        let q = child_of p f ustack pt k.next_pid (k.proctable p) (k.proctable i) in
        let k' : Kernel = set_proc i q (record k { kmem = m; next_pid = k.next_pid + 1 }) in
        let run : proc_fork etext p f k ≡ some (some k.next_pid, k') =
          rw (proc_fork, found, got) refl in
        let e : (some k.next_pid, k') ≡ r = some_injective (sym run ∙ h) in
        inr (
          i,
          sym (ap (λ x. x.0) e),
          record {
            slot = found;
            ustack = ustack;
            pt = pt;
            kmem = m;
            result = sym (ap (λ x. x.1) e);
          },
        )
  ]
]

-- A user process in the slot `i`.
abbrev pub IsLive : Kernel → ℕ → Type 0
IsLive k i = (same_state (k.proctable i).state unused ≡ false) × ((k.proctable i).is_user ≡ true)

-- The pids of the user processes are below `next_pid`, and differ.
pub record HasPids (k : Kernel) : Type 0 where
  pub below : (i : ℕ) → IsLive k i → (k.proctable i).pid < k.next_pid
  pub distinct :
      (i j : ℕ) → IsLive k i → IsLive k j → (k.proctable i).pid ≡ (k.proctable j).pid → i ≡ j

-- A new record in a slot, with the next pid.
set_proc-HasPids :
    (i : ℕ) (q : Proc) (m : Kmem) (k : Kernel)
    → HasPids k
    → q.pid ≡ k.next_pid
    → HasPids (set_proc i q (record k { kmem = m; next_pid = k.next_pid + 1 }))
set_proc-HasPids i q m k h pid =
    let t = update k.proctable i q in
    let k' : Kernel = set_proc i q (record k { kmem = m; next_pid = k.next_pid + 1 }) in
    let new : (j : ℕ) → i ≡ j → (t j).pid ≡ k.next_pid =
      λ j e. ap (λ r. r.pid) (ap t (sym e) ∙ update_self k.proctable i q) ∙ pid in
    let old : (j : ℕ) → i ≢ j → (t j).pid ≡ (k.proctable j).pid =
      λ j ne. ap (λ r. r.pid) (update_ne k.proctable i j q ne) in
    let live : (j : ℕ) → i ≢ j → IsLive k' j → IsLive k j = λ j ne l. (
      ap (λ r. same_state r.state unused) (sym (update_ne k.proctable i j q ne)) ∙ l.0,
      ap (λ r. r.is_user) (sym (update_ne k.proctable i j q ne)) ∙ l.1,
    ) in
    record {
      below = λ j l. elim (ℕ_discrete i j) [
        | yes e ↦ omega (arith, new j e)
        | no ne ↦ omega (arith, old j ne, h.below j (live j ne l))
      ];
      distinct = λ a b la lb e. elim (ℕ_discrete i a) [
        | yes ea ↦ elim (ℕ_discrete i b) [
          | yes eb ↦ sym ea ∙ eb
          | no nb ↦ absurd (omega (arith, e, new a ea, old b nb, h.below b (live b nb lb)))
        ]
        | no na ↦ elim (ℕ_discrete i b) [
          | yes eb ↦ absurd (omega (arith, e, new b eb, old a na, h.below a (live a na la)))
          | no nb ↦ h.distinct a b (live a na la) (live b nb lb) (sym (old a na) ∙ e ∙ old b nb)
        ]
      ];
    }

-- `proc_fork`, where it comes to an end, keeps the pids of the user processes different and below
-- `next_pid`, whether it makes a child or not.
pub proc_fork-HasPids :
    (etext p f : ℕ) (k : Kernel) (r : Option ℕ × Kernel)
    → HasPids k
    → proc_fork etext p f k ≡ some r
    → HasPids r.1
unfolding child_of
proc_fork-HasPids etext p f k r h run = elim (proc_fork_lem etext p f k r run) [
  | inl (full, failed, same) ↦ subst HasPids (sym same) h
  | inr (i, pid, made) ↦ subst HasPids (sym made.result) (
      set_proc-HasPids i
        (child_of p f made.ustack made.pt k.next_pid (k.proctable p) (k.proctable i)) made.kmem k h
        refl)
]
