-- ===== src/Spinlock/Exclusion.antt =====
-- src/spinlock.c: at most one core holds a lock.
use kernel_hobby.Base.{
  ℕ, ◌≡◌, ◌≢◌, refl, sym, ◌∙◌, ap, inl, inr, Bool, true, false, arith, ◌==◌, update, update_self,
  update_ne, Bool-cases, ℕ_discrete,
}
use kernel_hobby.Spinlock.{
  Locked, Place, outside, spinning, holding, initlock, acquire, try_lock, release,
}

-- A step of a core: it enters `acquire` from outside, it goes once around the loop, or, holding the lock,
-- it releases it.
pub data Step (s : Locked) : Locked → Type 0 where
  entered : (id : ℕ) → s.place id ≡ outside → Step s (acquire id s)
  tried : (id : ℕ) → s.place id ≡ spinning → Step s (try_lock id s)
  left : (id : ℕ) → s.place id ≡ holding → Step s (release id s)

pub data Steps (s : Locked) : Locked → Type 0 where
  done : Steps s s
  more : {t u : Locked} → Steps s t → Step t u → Steps s u

-- The word is 0 only if nobody holds the lock, and two cores never hold it.
pub record IsLock (s : Locked) : Type 0 where
  pub free : s.locked ≡ 0 → (id : ℕ) → s.place id ≢ holding
  pub alone : (i j : ℕ) → s.place i ≡ holding → s.place j ≡ holding → i ≡ j

is_holding : Place → Bool
is_holding outside = false
is_holding spinning = false
is_holding holding = true

-- A core that moves to a place that is not `holding` takes no lock.
moved :
    (s : Locked) (id i : ℕ) (p : Place)
    → is_holding p ≡ false
    → update s.place id p i ≡ holding
    → (id ≢ i) × (s.place i ≡ holding)
unfolding is_holding
moved s id i p out h = elim (ℕ_discrete id i) [
  | yes e ↦
      let here : p ≡ holding = sym (update_self s.place id p) ∙ ap (update s.place id p) e ∙ h in
      let both : false ≡ true = sym out ∙ ap is_holding here in absurd (ground (arith, both))
  | no ne ↦ (ne, sym (update_ne s.place id i p ne) ∙ h)
]

Step-IsLock : {s t : Locked} → Step s t → IsLock s → IsLock t
unfolding acquire try_lock release is_holding
Step-IsLock {s} (entered id out) h = record {
  free = λ z i e. h.free z i (moved s id i spinning refl e).1;
  alone = λ i j a b. h.alone i j (moved s id i spinning refl a).1 (moved s id j spinning refl b).1;
}
Step-IsLock {s} (left id mine) h = record {
  free = λ z i e. let m = moved s id i outside refl e in m.0 (h.alone id i mine m.1);
  alone = λ i j a b. h.alone i j (moved s id i outside refl a).1 (moved s id j outside refl b).1;
}
Step-IsLock {s} (tried id spin) h = elim (Bool-cases (s.locked == 0)) [
  | inr taken ↦
      rw (try_lock, taken) (record { free = λ z. absurd (omega (arith, z)); alone = h.alone })
  | inl open_lock ↦
      let nobody = h.free (ground (arith, open_lock)) in
      let only : (i : ℕ) → update s.place id holding i ≡ holding → id ≡ i = λ i a.
        elim (ℕ_discrete id i) [
          | yes e ↦ e
          | no ne ↦ absurd (nobody i (sym (update_ne s.place id i holding ne) ∙ a))
        ] in
      rw (try_lock, open_lock)
        (record {
          free = λ z. absurd (omega (arith, z));
          alone = λ i j a b. sym (only i a) ∙ only j b;
        })
]

-- From a lock set up by `initlock` while every core is outside, every interleaving of acquire and release on
-- any number of cores leaves at most one core that holds the lock, and the word is 0 only if nobody does.
pub initlock-IsLock :
    (s t : Locked) → ((id : ℕ) → s.place id ≡ outside) → Steps (initlock s) t → IsLock t
unfolding initlock is_holding
initlock-IsLock s t out steps = all steps
  where
    start : IsLock (initlock s)
    start = record {
      free = λ z id e. absurd (ground (arith, sym (ap is_holding (out id)) ∙ ap is_holding e));
      alone = λ i j a b. absurd (ground (arith, sym (ap is_holding (out i)) ∙ ap is_holding a));
    }

    all : {u : Locked} → Steps (initlock s) u → IsLock u
    all done = start
    all (more before step) = Step-IsLock step (all before)
