-- ===== src/Spinlock.antt =====
-- src/spinlock.c: the locks, and the nesting of the sections with interrupts off. A core is a hart with its
-- own `struct cpu`; `__sync_lock_test_and_set` and `__sync_lock_release` are one step each.
pub mod Nesting
pub mod Exclusion
mod Tests
use kernel_hobby.Base.{ℕ, ◌+◌, ◌-◌, ◌%◌, ◌^◌, Bool, true, false, ◌&&◌, update, ◌==◌, if◌then◌else◌}

-- `struct cpu`, `intena` as a flag, and whether the core takes interrupts
pub record Cpu : Type 0 where
  pub noff : ℕ
  pub intena : Bool
  pub intr : Bool

unfoldable pub push_off : Cpu → Cpu
push_off c = record {
  intr = false;
  intena = if c.noff == 0 then c.intr else c.intena;
  noff = (c.noff + 1) % 2 ^ 32;
}

unfoldable pub pop_off : Cpu → Cpu
pop_off c =
    let n = (c.noff + 2 ^ 32 - 1) % 2 ^ 32 in
    record c { noff = n; intr = if n == 0 && c.intena then true else c.intr }

-- where a core is with respect to one lock
pub data Place : Type 0 where
  outside spinning holding : Place

-- a lock, with the place of each core and its `struct cpu`
pub record Locked : Type 0 where
  pub locked : ℕ
  pub place : ℕ → Place
  pub cpus : ℕ → Cpu

unfoldable pub initlock : Locked → Locked
initlock s = record s { locked = 0 }

-- `acquire` on the core `id`: its start, and one round of its loop
unfoldable pub acquire : ℕ → Locked → Locked
acquire id s = record s {
  place = update s.place id spinning;
  cpus = update s.cpus id (push_off (s.cpus id));
}

unfoldable pub try_lock : ℕ → Locked → Locked
try_lock id s = record s {
  locked = 1;
  place = if s.locked == 0 then update s.place id holding else s.place;
}

-- `release` on the core `id`
unfoldable pub release : ℕ → Locked → Locked
release id s = record s {
  locked = 0;
  place = update s.place id outside;
  cpus = update s.cpus id (pop_off (s.cpus id));
}
