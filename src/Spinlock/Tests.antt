-- ===== src/Spinlock/Tests.antt =====
-- The locks of src/spinlock.c at concrete states, and their theorems there.
use kernel_hobby.Base.{refl, true, false, arith, inl}
use kernel_hobby.Spinlock.{Cpu, Locked, outside, initlock, acquire, try_lock}
use kernel_hobby.Spinlock.Nesting.{idle, both, within, run, Restored, run-Restored}
use kernel_hobby.Spinlock.Exclusion.{entered, tried, done, more, initlock-IsLock, IsLock}

-- a core that takes interrupts and holds no lock
abbrev core : Cpu
core = record { noff = 0; intena = false; intr = true }

run-Restored_example : Restored core (run (within (both (within idle) (within idle))) core)
run-Restored_example =
    run-Restored (within (both (within idle) (within idle))) core (omega arith) (inl refl)

abbrev fresh_lock : Locked
fresh_lock = record { locked = 1; place = λ id. outside; cpus = λ id. core }

-- Both cores want the lock, and core 1 gets it.
abbrev contended : Locked
contended = try_lock 0 (try_lock 1 (acquire 1 (acquire 0 (initlock fresh_lock))))

initlock-IsLock_example : IsLock contended
unfolding initlock acquire try_lock
initlock-IsLock_example =
    initlock-IsLock fresh_lock contended (λ id. refl)
      (more (more (more (more done (entered 0 refl)) (entered 1 refl)) (tried 1 refl))
        (tried 0 refl))
