-- ===== src/Shell.antt =====
-- user/init.c: the shell, which reads a line and makes system calls of it. A text is the list of its bytes
-- before the terminating 0.
pub mod Typed
mod Tests
use kernel_hobby.Base.{
  text_of, ℕ, zero, suc, ◌+◌, Bool, true, false, ◌&&◌, Option, none, some, List, [], ◌∷◌, ◌++◌,
  length, drop, take, ◌==◌, if◌then◌else◌,
}

-- `line[n - 1] = 0` for a newline, or `line[n] = 0`
abbrev pub without_newline : List ℕ → List ℕ
without_newline [] = []
without_newline (c ∷ []) = if c == b'\n' then [] else c ∷ []
without_newline (c ∷ d ∷ cs) = c ∷ without_newline (d ∷ cs)

abbrev pub same_text : List ℕ → List ℕ → Bool
same_text [] [] = true
same_text [] (y ∷ ys) = false
same_text (x ∷ xs) [] = false
same_text (x ∷ xs) (y ∷ ys) = x == y && same_text xs ys

abbrev pub startswith : List ℕ → List ℕ → Bool
startswith s [] = true
startswith [] (y ∷ ys) = false
startswith (x ∷ xs) (y ∷ ys) = x == y && startswith xs ys

-- the loop `while (*sp && *sp != ' ') sp++;`, and what is behind the blank
abbrev pub word_of : List ℕ → List ℕ
word_of [] = []
word_of (c ∷ cs) = let rest = word_of cs in if c == b' ' then [] else c ∷ rest

abbrev pub behind_word : List ℕ → List ℕ
behind_word [] = []
behind_word (c ∷ cs) = let rest = behind_word cs in if c == b' ' then cs else rest

-- what a line asks for: nothing, a text to print, or system calls. `program` is fork, exec in the child and
-- wait.
pub data Command : Type 0 where
  nothing help ls mem tcp : Command
  rm cat program : List ℕ → Command
  write : List ℕ → List ℕ → Command

-- the tests of the commands, on a line that is not empty
unfoldable pub choose : List ℕ → Command
choose line =
    if same_text line (b'h' ∷ b'e' ∷ b'l' ∷ b'p' ∷ [])
    then help
    else if startswith line (b'r' ∷ b'm' ∷ b' ' ∷ [])
    then rm (drop 3 line)
    else if same_text line (b'l' ∷ b's' ∷ [])
    then ls
    else if same_text line (b'm' ∷ b'e' ∷ b'm' ∷ [])
    then mem
    else if same_text line (b't' ∷ b'c' ∷ b'p' ∷ [])
    then tcp
    else if startswith line (b'c' ∷ b'a' ∷ b't' ∷ b' ' ∷ [])
    then cat (drop 4 line)
    else if startswith line (b'w' ∷ b'r' ∷ b'i' ∷ b't' ∷ b'e' ∷ b' ' ∷ [])
    then write (word_of (drop 6 line)) (behind_word (drop 6 line))
    else program line

-- the bytes of `line`, but for the 0 behind the text
abbrev pub line_room : ℕ
line_room = 127

-- One round of the loop of `_start`, on the bytes that `console_read` has up to a newline: `sys_read` puts the first
-- 127 in `line`.
unfoldable pub command : List ℕ → Command
command bytes =
    let line = text_of (without_newline (take line_room bytes)) in
    if length line == 0 then nothing else choose line
