-- ===== src/Console/Tests.antt =====
-- The ring of src/console.c at concrete states, and its theorems there.
use kernel_hobby.Base.{◌≡◌, refl, [], ◌∷◌, arith, ◌==◌, if◌then◌else◌}
use kernel_hobby.Console.{Console, console_read, returned, newline}
use kernel_hobby.Console.Queue.{Queued, read_line, console_read-Queued}

-- the line `a`, and a `b` after it, at the end of the array and at its start
abbrev ring : Console
ring = record {
  inbuf = λ i. if i == 126 then b'a' else if i == 127 then newline else b'b';
  in_w = 129;
  in_r = 126;
}

ring-Queued : Queued (b'a' ∷ newline ∷ b'b' ∷ []) ring
ring-Queued = record { fits = omega arith; count = refl; far = omega arith; bytes = refl }

console_read-Queued_example :
    ((console_read 10 ring).0 ≡ returned (b'a' ∷ newline ∷ []))
    × Queued (b'b' ∷ []) (console_read 10 ring).1
unfolding read_line
console_read-Queued_example = console_read-Queued 10 (b'a' ∷ newline ∷ b'b' ∷ []) ring ring-Queued
