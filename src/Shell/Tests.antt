-- ===== src/Shell/Tests.antt =====
-- Lines at the shell.
use kernel_hobby.Base.{◌≡◌, refl, arith, [], ◌∷◌, ◌++◌}
use kernel_hobby.Shell.{Command, write, program, command, choose}
use kernel_hobby.Shell.Typed.{typed, command-typed}

-- "write a b c"
abbrev write_line : Command
write_line = write (b'a' ∷ []) (b'b' ∷ b' ' ∷ b'c' ∷ [])

command-typed_example : command (typed write_line ++ b'\n' ∷ []) ≡ write_line
command-typed_example =
    command-typed write_line
      (
        ((ground arith, ground arith, ground arith), tt),
        (
          (ground arith, ground arith),
          ((ground arith, ground arith), ((ground arith, ground arith), tt)),
        ),
      )
      (omega arith)

-- a line that the shell takes for the path of a program
command_hello : command (b'l' ∷ b's' ∷ b' ' ∷ []) ≡ program (b'l' ∷ b's' ∷ b' ' ∷ [])
unfolding command choose
command_hello = refl
