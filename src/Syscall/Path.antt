-- ===== src/Syscall/Path.antt =====
-- src/user.c: what copy_path makes of a string of the user.
use kernel_hobby.Base.{
  ℕ, zero, suc, ◌+◌, ◌-◌, ◌≤◌, ◌<◌, ◌≢◌, inl, inr, arith, length, All, ◌==◌, Bool-cases,
}
use kernel_hobby.Syscall.{copy_bytes, copy_path}

copy_bytes_lem :
    (n : ℕ) (user : ℕ → ℕ) (u : ℕ)
    → (length (copy_bytes n user u) ≤ n) × All (λ c. c ≢ 0) (copy_bytes n user u)
unfolding copy_bytes
copy_bytes_lem zero user u = (omega arith, _)
copy_bytes_lem (suc n) user u = elim (Bool-cases (user u == 0)) [
  | inl stop ↦ rw (copy_bytes, stop) (omega arith, _)
  | inr char ↦
      let rest = copy_bytes_lem n user (u + 1) in
      rw (copy_bytes, char) (omega (arith, rest.0), (ground (arith, char), rest.1))
]

-- `copy_path` into a buffer of `max` bytes gives a string that fits there with the 0 behind it, and holds no
-- 0, whatever the memory of the user holds.
copy_path_lem :
    (user : ℕ → ℕ) (u max : ℕ)
    → 0 < max
    → (length (copy_path user u max) < max) × All (λ c. c ≢ 0) (copy_path user u max)
unfolding copy_path
copy_path_lem user u max pos = let r = copy_bytes_lem (max - 1) user u in (omega (arith, r.0), r.1)
