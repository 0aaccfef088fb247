-- ===== src/Boot/Once.antt =====
-- src/main.c: the kernel is brought up once, and the harts that come later join it.
use kernel_hobby.Base.{
  ℕ, zero, suc, ◌+◌, ◌%◌, ◌^◌, none, ◌≡◌, ◌≢◌, ◌∙◌, true, not, ◌&&◌, Option, some, List, [], ◌∷◌,
  has, ltb, ◌==◌, if◌then◌else◌, arith, ◌>>=◌,
}
use kernel_hobby.Hart.{Hart}
use kernel_hobby.Vm.{bit, satp_for}
use kernel_hobby.Boot.{Board, System, hart_main, kmain, wake_from, nhart}

-- the loop over the harts from `h` on
wake_lem :
    (n h id j : ℕ) (woken : List ℕ)
    → has j (wake_from n h id woken)
      ≡ (if not (ltb j h) && ltb j (h + n) && not (j == id) then true else has j woken)
unfolding wake_from
wake_lem zero h id j woken = ground arith
wake_lem (suc n) h id j woken =
    rw (wake_lem n (h + 1) id j (if h == id then woken else h ∷ woken)) (ground arith)

-- `sbi_hart_start` is called for the harts of the board, but not for the hart that boots.
pub wake_others_lem : (id j : ℕ) → has j (wake_from nhart 0 id []) ≡ (ltb j nhart && not (j == id))
wake_others_lem id j = wake_lem nhart 0 id j [] ∙ ground arith

-- A hart that was `old` and came up at a time: it uses the page table `pt`, traps to `kernelvec`, takes the
-- interrupts of the timer and of devices, has its next timer interrupt a tick after that time, and may use the pages of
-- users. Its other registers are as they were.
pub record IsUp (kernelvec time pt : ℕ) (old h : Hart) : Type 0 where
  pub paging : h.satp ≡ satp_for pt
  pub vector : h.stvec ≡ kernelvec
  pub timer : bit 5 h.sie ≡ true
  pub external : bit 9 h.sie ≡ true
  pub next_tick : h.stimecmp ≡ (time + 1000000) % 2 ^ 64
  pub user_pages : bit 18 h.sstatus ≡ true
  pub kept : (h.tp ≡ old.tp) × (h.sp ≡ old.sp) × (h.sepc ≡ old.sepc)

-- when a hart entered for the last time
abbrev pub entered : ℕ → List (ℕ × ℕ) → Option ℕ
entered j [] = none
entered j ((id, time) ∷ es) = elim (entered j es) [
  | some later ↦ some later
  | none ↦ if id == j then some time else none
]

module _ {D E P : Type 0} (board : Board D E P) where
  -- harts that enter `kmain` one after another, each at its time
  abbrev pub kmains : List (ℕ × ℕ) → System D E P → Option (System D E P)
  kmains [] s = some s
  kmains ((id, time) ∷ es) s = kmain board id time s >>= kmains es

  -- Nothing but the registers of harts changed: those of the harts that entered are up, and the others are as
  -- they were.
  pub record Joined (es : List (ℕ × ℕ)) (s s' : System D E P) : Type 0 where
    pub same : s' ≡ record s { boot_taken = s'.boot_taken; harts = s'.harts }
    pub taken : s'.boot_taken ≢ 0
    pub up :
        (j time : ℕ)
        → entered j es ≡ some time
        → IsUp board.kernelvec time s.kernel.kernel_pagetable (s.harts j) (s'.harts j)
    pub others : (j : ℕ) → entered j es ≡ none → s'.harts j ≡ s.harts j

  module _ (id time : ℕ) (s : System D E P) where
    abbrev joined : System D E P
    joined = hart_main board id time (record s { boot_taken = 1 })
