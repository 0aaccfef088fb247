-- ===== src/Syscall.antt =====
-- src/user.c: the dispatch of the system calls, over the processes, the file system, the console and the
-- network. What they print is left out.
pub mod Path
use kernel_hobby.Base.{
  ℕ, zero, suc, ◌+◌, ◌-◌, ◌%◌, ◌^◌, Bool, true, false, Option, none, some, List, [], ◌∷◌, length,
  ltb, ◌==◌, if◌then◌else◌, ◌||◌,
}
use kernel_hobby.Fs.State.{Fs}
use kernel_hobby.Fs.Change.{fs_create, fs_delete}
use kernel_hobby.Console.{Console, Reading, console_read}
use kernel_hobby.Net.Tcp.Demo.{Demo, net_tcp_demo}
use kernel_hobby.Proc.{Kernel, Waited, set_proc, proc_fork, proc_exit, proc_wait, proc_sbrk, sleep}
use kernel_hobby.Proc.Table.{on_input}
use kernel_hobby.Proc.User.{proc_exec, proc_mmap}

-- the state that a system call can change
pub record Machine : Type 0 where
  pub kernel : Kernel
  pub fs : Fs
  pub console : Console
  pub elfbuf : ℕ → ℕ
  pub net : Demo

-- How a call ends: back in the program with `a0`, or with bytes in its buffer; in a new program; asleep,
-- to go on later; or never.
pub data Outcome : Type 0 where
  back : ℕ → Outcome
  filled : List ℕ → Outcome
  entered : ℕ → Outcome
  stopped ended : Outcome

-- `copy_path`: at most `max - 1` bytes of the string at the address `u`
unfoldable pub copy_bytes : ℕ → (ℕ → ℕ) → ℕ → List ℕ
copy_bytes zero user u = []
copy_bytes (suc n) user u =
    let rest = copy_bytes n user (u + 1) in if user u == 0 then [] else user u ∷ rest

unfoldable pub copy_path : (ℕ → ℕ) → ℕ → ℕ → List ℕ
copy_path user u max = copy_bytes (max - 1) user u

-- -1 in a register
abbrev pub minus_one : ℕ
minus_one = 2 ^ 64 - 1

abbrev pub status : Bool → Outcome
status ok = back (if ok then 0 else minus_one)

-- an int argument that is used as a length
abbrev pub int_length : ℕ → ℕ
int_length n = if ltb (n % 2 ^ 32) (2 ^ 31) then n % 2 ^ 32 else 0

abbrev pub after_wait : Waited × Kernel → Machine → Outcome × Machine
after_wait (Waited.reaped pid, k) m = (back pid, record m { kernel = k })
after_wait (Waited.no_children, k) m = (back minus_one, record m { kernel = k })
after_wait (Waited.asleep, k) m = (stopped, record m { kernel = k })

abbrev pub after_read : ℕ → Reading × Console → Machine → Outcome × Machine
after_read id (Reading.returned bs, c) m = (filled bs, record m { console = c })
after_read id (Reading.asleep bs, c) m =
    (stopped, record m { console = c; kernel = sleep id on_input m.kernel })

abbrev pub after_exec : Option ℕ × (ℕ → ℕ) × Kernel → Machine → Outcome × Machine
after_exec (none, buf, k) m = (back minus_one, record m { elfbuf = buf; kernel = k })
after_exec (some entry, buf, k) m = (entered entry, record m { elfbuf = buf; kernel = k })

abbrev pub pid_or_error : Option ℕ → Outcome
pid_or_error none = back minus_one
pid_or_error (some n) = back n

abbrev pub after_fork : Option (Option ℕ × Kernel) → Machine → Option (Outcome × Machine)
after_fork none m = none
after_fork (some (pid, k)) m = some (pid_or_error pid, record m { kernel = k })

-- SYS_putchar, SYS_print, SYS_ls, SYS_cat and SYS_mem
abbrev pub prints : ℕ → Bool
prints a7 = a7 == 1 || a7 == 2 || a7 == 9 || a7 == 10 || a7 == 11

-- `syscall` of the process in the slot `p` on the core `id`, with its trap frame at `f`; `user` is the memory
-- that the process sees. The outer none is the endless loop of `kvmmap` in SYS_fork.
unfoldable pub syscall : ℕ → ℕ → ℕ → ℕ → (ℕ → ℕ) → ℕ → ℕ → ℕ → Machine → Option (Outcome × Machine)
syscall etext id p f user a7 a0 a1 m =
    let k = m.kernel in
    let path = copy_path user a0 64 in
    if a7 == 3
    then some (
      back a0,
      record m {
        kernel =
            set_proc p (record (k.proctable p) { counter = ((k.proctable p).counter + 1) % 2 ^ 64 })
              k;
      },
    )
    else if a7 == 4
    then some (ended, record m { kernel = proc_exit p k })
    else if a7 == 5
    then after_fork (proc_fork etext p f k) m
    else if a7 == 6
    then some (after_exec (proc_exec p path m.fs m.elfbuf k) m)
    else if a7 == 7
    then some (after_read id (console_read (int_length a1) m.console) m)
    else if a7 == 8
    then some (after_wait (proc_wait id p k) m)
    else if a7 == 12
    then some (
      back (proc_sbrk p (a0 % 2 ^ 32) k).0,
      record m { kernel = (proc_sbrk p (a0 % 2 ^ 32) k).1 },
    )
    else if a7 == 13
    then some (
      pid_or_error (proc_mmap p path m.fs k).0,
      record m { kernel = (proc_mmap p path m.fs k).1 },
    )
    else if a7 == 14
    then some (
      status (fs_create path (copy_path user a1 256) m.fs).0,
      record m { fs = (fs_create path (copy_path user a1 256) m.fs).1 },
    )
    else if a7 == 15
    then some (status (fs_delete path m.fs).0, record m { fs = (fs_delete path m.fs).1 })
    else if a7 == 16
    then some (back 0, record m { net = (net_tcp_demo (length m.net.polls + 1) m.net).1 })
    else some (if prints a7 then back 0 else back minus_one, m)
