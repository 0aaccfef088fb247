-- ===== src/KernelShell.antt =====
-- src/shell.c: the shell inside the kernel, which is given one byte at a time.
pub mod Editor
mod Tests
use kernel_hobby.Base.{
  ℕ, zero, suc, ◌+◌, ◌-◌, ◌*◌, ◌/◌, ◌%◌, ◌^◌, Bool, true, false, ◌&&◌, ◌||◌, List, [], ◌∷◌, ◌++◌,
  drop, set, ltb, ◌==◌, if◌then◌else◌, codes, text_of,
}
use kernel_hobby.Uart.{uart_putc, uart_puts, uart_dec}
use kernel_hobby.Kalloc.{kfreecount}
use kernel_hobby.Proc.{Kernel}
use kernel_hobby.Proc.Dump.{proc_dump}
use kernel_hobby.Fs.State.{Fs}
use kernel_hobby.Fs.Print.{fs_ls, cat_output}

-- what the commands show: `clock_ticks()`, the processes with the page allocator, and the files
pub record World : Type 0 where
  pub ticks : ℕ
  pub kernel : Kernel
  pub fs : Fs

-- `line[128]` and `len`, with what went out of the serial port
pub record KernelShell : Type 0 where
  pub line : List ℕ
  pub len : ℕ
  pub out : List ℕ

abbrev pub line_size : ℕ
line_size = 128

abbrev pub str_eq : List ℕ → List ℕ → Bool
str_eq [] [] = true
str_eq [] (y ∷ ys) = false
str_eq (x ∷ xs) [] = false
str_eq (x ∷ xs) (y ∷ ys) = x == y && str_eq xs ys

abbrev pub starts_with : List ℕ → List ℕ → Bool
starts_with s [] = true
starts_with [] (y ∷ ys) = false
starts_with (x ∷ xs) (y ∷ ys) = x == y && starts_with xs ys

abbrev pub prompt : List ℕ → List ℕ
prompt out = uart_puts (codes "hobby> ") out

-- `pages * 4096 / 1024 / 1024`
abbrev pub megabytes : ℕ → ℕ
megabytes pages = pages * 4096 % 2 ^ 64 / 1024 / 1024

unfoldable pub execute : World → List ℕ → List ℕ → List ℕ
execute w cmd out =
    if str_eq cmd []
    then out
    else if str_eq cmd (codes "help")
    then uart_puts
        (codes
          "commands: help, about, uptime, mem, ps, ls, cat <file>, clear, whoami, echo <text>\n")
        out
    else if str_eq cmd (codes "about")
    then uart_puts (codes "kernel-hobby (C / RISC-V) -- a from-scratch learning kernel\n") out
    else if str_eq cmd (codes "uptime")
    then uart_puts (codes " sec\n") (uart_dec (w.ticks / 10) (uart_puts (codes "uptime: ") out))
    else if str_eq cmd (codes "clear")
    then uart_puts (27 ∷ codes "[2J" ++ 27 ∷ codes "[H") out
    else if str_eq cmd (codes "whoami")
    then uart_puts (codes "a kernel hacker building their own OS\n") out
    else if str_eq cmd (codes "mem")
    then (let pages = kfreecount w.kernel.kmem in
        uart_puts (codes " MB free)\n") (
          uart_dec (megabytes pages)
            (uart_puts (codes "  (~") (uart_dec pages (uart_puts (codes "free pages: ") out)))))
    else if str_eq cmd (codes "ps")
    then uart_puts (codes "threads (preemptively scheduled):\n") out ++ proc_dump w.kernel
    else if str_eq cmd (codes "ls")
    then out ++ fs_ls w.fs
    else if starts_with cmd (codes "cat ")
    then out ++ cat_output w.fs (drop 4 cmd)
    else if starts_with cmd (codes "echo ")
    then uart_putc b'\n' (uart_puts (drop 5 cmd) out)
    else uart_puts (codes "  (try 'help')\n")
        (uart_puts cmd (uart_puts (codes "unknown command: ") out))

unfoldable pub shell_init : KernelShell → KernelShell
shell_init s = record s { out = prompt (uart_puts (codes "\ntype 'help' for commands.\n") s.out) }

unfoldable pub shell_input : World → ℕ → KernelShell → KernelShell
shell_input w c s =
    if c == b'\r' || c == b'\n'
    then (let line = set s.line s.len 0 in
        record {
          line = line;
          len = 0;
          out = prompt (execute w (text_of line) (uart_putc b'\n' s.out));
        })
    else if c == 0x7f || c == 0x08
    then if ltb 0 s.len
      then record s { len = s.len - 1; out = uart_puts (8 ∷ 32 ∷ 8 ∷ []) s.out }
      else s
    else if ltb s.len (line_size - 1)
    then record { line = set s.line s.len c; len = s.len + 1; out = uart_putc c s.out }
    else s
