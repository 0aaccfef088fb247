-- ===== src/Fs/Log/Install.antt =====
-- Installing the log on an image: which blocks change, and what they then hold.
use kernel_hobby.Base.{
  ℕ, suc, ◌+◌, ◌≤◌, ◌<◌, ◌≡◌, ◌⊎◌, refl, ◌∙◌, Bool, true, false, ◌||◌, List, [], ◌∷◌, ◌++◌, arith,
  length, All, update, update_ne, ◌==◌,
}
use kernel_hobby.Fs.Format.{Block, loghdr, logstart, logn, datastart}
use kernel_hobby.Fs.Disk.{Image, Disk, disk_read, disk_write}
use kernel_hobby.Fs.Log.{log_install}

-- A block that a transaction may change: no block of the log.
abbrev pub IsTarget : ℕ → Type 0
IsTarget b = (b < loghdr) ⊎ (datastart ≤ b)

abbrev pub IsLog : ℕ → Type 0
IsLog b = (loghdr ≤ b) × (b < datastart)

-- a block number with the contents that it is to get
abbrev pub Write : Type 0
Write = ℕ × Block

-- The meaning of a transaction: its writes, in order.
unfoldable pub applied : List Write → Image → Image
applied [] m = m
applied (w ∷ ws) m = applied ws (update m w.0 w.1)

abbrev pub targets : List Write → List ℕ
targets [] = []
targets (w ∷ ws) = w.0 ∷ targets ws

-- The log holds the contents of the writes, from log block number `i` on.
abbrev pub Stored : ℕ → List Write → Image → Type 0
Stored i [] m = Unit
Stored i (w ∷ ws) m = (m (logstart + i) ≡ w.1) × Stored (suc i) ws m

-- `log_install` as a function of the image
pub installed : ℕ → List ℕ → Image → Image
installed i [] m = m
installed i (b ∷ bs) m = installed (suc i) bs (update m b (m (logstart + i)))

pub image-log_install :
    (i : ℕ) (bs : List ℕ) (d : Disk) → (log_install i bs d).image ≡ installed i bs d.image
unfolding log_install installed
image-log_install i [] d = refl
image-log_install i (b ∷ bs) d =
    image-log_install (suc i) bs (disk_write d b (disk_read d (logstart + i)))

abbrev pub has : ℕ → List ℕ → Bool
has x [] = false
has x (b ∷ bs) = (b == x) || has x bs

-- The same log, and the same contents in every block that the log is not for.
pub record Agrees (bs : List ℕ) (c m : Image) : Type 0 where
  pub on_log : (x : ℕ) → IsLog x → m x ≡ c x
  pub elsewhere : (x : ℕ) → has x bs ≡ false → m x ≡ c x

pub Agrees-refl : (bs : List ℕ) (c : Image) → Agrees bs c c
Agrees-refl bs c = record { on_log = λ x h. refl; elsewhere = λ x h. refl }

pub Agrees-update :
    {bs : List ℕ} {c m : Image} (b : ℕ) (v : Block)
    → Agrees bs c m
    → IsTarget b
    → has b bs ≡ true
    → Agrees bs c (update m b v)
Agrees-update {bs} {c} {m} b v a t h = record {
  on_log = λ x l. ground (arith, a.on_log x l);
  elsewhere = λ x l. ground (arith, a.elsewhere x l);
}

-- Installing gives the same block, whatever earlier installing left in the blocks that the log is for.
pub installed-Agrees :
    (i : ℕ) (bs : List ℕ) (c m : Image)
    → All IsTarget bs
    → i + length bs ≤ logn
    → ((x : ℕ) → IsLog x → m x ≡ c x)
    → (x : ℕ) → (has x bs ≡ false → m x ≡ c x)
    → installed i bs m x ≡ installed i bs c x
unfolding installed
installed-Agrees i [] c m t le l x e = e refl
installed-Agrees i (b ∷ bs) c m t le l x e =
    installed-Agrees (suc i) bs (update c b (c (logstart + i))) (update m b (m (logstart + i))) t.1
      (omega arith) (λ y h. ground (arith, l y h, t.0)) x (λ h. ground (arith, l (logstart + i), e))

-- Installing leaves the log alone.
pub installed_log :
    (i : ℕ) (bs : List ℕ) (m : Image)
    → All IsTarget bs
    → (x : ℕ) → IsLog x
    → installed i bs m x ≡ m x
unfolding installed
installed_log i [] m t x h = refl
installed_log i (b ∷ bs) m t x h =
    installed_log (suc i) bs (update m b (m (logstart + i))) t.1 x h
    ∙ update_ne m b x (m (logstart + i)) (ground (arith, t.0))

pub Stored-same :
    (i : ℕ) (ws : List Write) (m m' : Image)
    → Stored i ws m
    → i + length ws ≤ logn
    → ((x : ℕ) → logstart ≤ x → x < datastart → m' x ≡ m x)
    → Stored i ws m'
Stored-same i [] m m' st le e = tt
Stored-same i (w ∷ ws) m m' st le e = (
  e (logstart + i) (omega arith) (omega arith) ∙ st.0,
  Stored-same (suc i) ws m m' st.1 (omega arith) e,
)

-- One more block of the log is filled, behind those in use.
pub Stored-append :
    (i j : ℕ) (ws : List Write) (m : Image) (b : ℕ) (v : Block)
    → Stored i ws m
    → j ≡ logstart + (i + length ws)
    → Stored i (ws ++ (b, v) ∷ []) (update m j v)
Stored-append i j [] m b v st e = (ground arith, tt)
Stored-append i j (w ∷ ws) m b v st e =
    (ground (arith, st.0), Stored-append (suc i) j ws m b v st.1 (omega arith))

-- Installing a log that holds the writes of a transaction is to make these writes.
pub installed-applied :
    (i : ℕ) (ws : List Write) (m m' : Image)
    → All IsTarget (targets ws)
    → i + length ws ≤ logn
    → Stored i ws m
    → ((x : ℕ) → IsTarget x → m x ≡ m' x)
    → (x : ℕ) → IsTarget x
    → installed i (targets ws) m x ≡ applied ws m' x
unfolding installed applied
installed-applied i [] m m' t le st e x h = e x h
installed-applied i (w ∷ ws) m m' t le st e x h =
    installed-applied (suc i) ws (update m w.0 (m (logstart + i))) (update m' w.0 w.1) t.1
      (omega arith)
      (Stored-same (suc i) ws m (update m w.0 (m (logstart + i))) st.1 (omega arith)
        (λ y l l'. ground (arith, t.0)))
      (λ y hy. ground (arith, e y hy, st.0)) x h

pub applied-append :
    (ws vs : List Write) (m : Image) → applied (ws ++ vs) m ≡ applied vs (applied ws m)
unfolding applied
applied-append [] vs m = refl
applied-append (w ∷ ws) vs m = applied-append ws vs (update m w.0 w.1)
