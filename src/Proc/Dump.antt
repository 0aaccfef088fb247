-- ===== src/Proc/Dump.antt =====
-- src/proc.c: proc_dump, which lists the processes.
use kernel_hobby.Base.{ℕ, zero, suc, ◌+◌, List, [], ◌++◌, if◌then◌else◌, codes, text_of}
use kernel_hobby.Uart.{puts_bytes, dec_bytes}
use kernel_hobby.Proc.{Kernel}
use kernel_hobby.Proc.Table.{Proc, unused, same_state, nproc}

abbrev pub dump_line : Proc → List ℕ
dump_line p =
    codes "  "
    ++ (puts_bytes (text_of p.name)
        ++ (codes (if p.is_user then " (user pid=" else " (kernel pid=")
            ++ (dec_bytes p.pid ++ (codes "): ticks=" ++ (dec_bytes p.counter ++ codes "\n")))))

-- the loop over the table from `i` on, with `n` slots left
unfoldable pub dump_lines : ℕ → ℕ → (ℕ → Proc) → List ℕ
dump_lines zero i table = []
dump_lines (suc n) i table =
    let rest = dump_lines n (i + 1) table in
    if same_state (table i).state unused then rest else dump_line (table i) ++ rest

unfoldable pub proc_dump : Kernel → List ℕ
proc_dump k = dump_lines nproc 0 k.proctable
