-- ===== src/Fs/Log/Atomic.antt =====
-- A transaction of the log is atomic: what recovery makes of the disk, wherever the power fails.
use kernel_hobby.Base.{
  ℕ, suc, ◌+◌, ◌≤◌, ◌<◌, ◌≡◌, ◌≢◌, ◌⊎◌, inl, inr, refl, ap, ◌∙◌, sym, true, false, List, [], ◌∷◌,
  ◌++◌, arith, length, length-append, All, IsWord, update, update_ne, ◌==◌, leb,
}
use kernel_hobby.Fs.Format.{Block, loghdr, logstart, logn, decode_loghdr, encode_loghdr}
use kernel_hobby.Fs.Disk.{Image, Disk, disk_read, disk_write}
use kernel_hobby.Fs.State.{Fs}
use kernel_hobby.Fs.Log.{write_loghdr, log_install, header_blocks, log_write, log_commit}
use kernel_hobby.Fs.Log.Install.{
  IsTarget, Write, applied, targets, Stored, Stored-same, Stored-append, installed,
  image-log_install, has, Agrees, Agrees-refl, Agrees-update, installed-Agrees, installed-applied,
}
use kernel_hobby.Fs.Log.Header.{
  header, IsClean, header_of, recovered, recovered-IsClean, recovered-committed, decode-header_of,
}

-- After a crash at the image `m` recovery gives the blocks of `goal`, those of the log excepted; a log that is
-- committed there has no block of the log among its destinations.
pub record RecoversTo (goal m : Image) : Type 0 where
  pub found : (x : ℕ) → IsTarget x → recovered m x ≡ goal x
  pub dests : (header m).committed ≢ 0 → All IsTarget (header_blocks (header m))

pub RecoversTo-IsClean :
    {goal m : Image} → IsClean m → ((x : ℕ) → IsTarget x → m x ≡ goal x) → RecoversTo goal m
RecoversTo-IsClean {goal} {m} c e = record {
  found = λ x t. rw (recovered-IsClean m c) (e x t);
  dests = λ ne. absurd (ne c);
}

pub header-Agrees : {bs : List ℕ} {c m : Image} → Agrees bs c m → header m ≡ header c
header-Agrees a = ap decode_loghdr (a.on_log loghdr (omega arith))

-- A transaction that has logged the writes `ws`, begun on the image `start`.
pub record Logging (start : Image) (ws : List Write) (s : Fs) : Type 0 where
  pub clean : IsClean s.disk.image
  pub same : (x : ℕ) → IsTarget x → s.disk.image x ≡ start x
  pub blks : s.log_blk ≡ targets ws
  pub in_room : s.log_overflow ≡ false
  pub few : length ws ≤ logn
  pub dests : All IsTarget (targets ws)
  pub fits : All IsWord (targets ws)
  pub stored : Stored 0 ws s.disk.image
  pub past : All (RecoversTo start) s.disk.history

pub length-targets : (ws : List Write) → length (targets ws) ≡ length ws
length-targets [] = refl
length-targets (w ∷ ws) = ap suc (length-targets ws)

targets-append :
    (ws : List Write) (b : ℕ) (v : Block) → targets (ws ++ (b, v) ∷ []) ≡ targets ws ++ b ∷ []
targets-append [] b v = refl
targets-append (w ∷ ws) b v = ap (λ t. w.0 ∷ t) (targets-append ws b v)

All-targets :
    (P : ℕ → Type 0) (ws : List Write) (b : ℕ) (v : Block)
    → All P (targets ws)
    → P b
    → All P (targets (ws ++ (b, v) ∷ []))
All-targets P [] b v h p = (p, tt)
All-targets P (w ∷ ws) b v h p = (h.0, All-targets P ws b v h.1 p)

-- Logging a block that fits in the log changes no block of the file system.
pub log_write-Logging :
    {start : Image} {ws : List Write} {s : Fs} (dst : ℕ) (block : Block)
    → Logging start ws s
    → length ws < logn
    → IsTarget dst
    → IsWord dst
    → Logging start (ws ++ (dst, block) ∷ []) (log_write dst block s)
unfolding log_write
log_write-Logging {start} {ws} {s} dst block g lt t w =
    let room : leb logn (length s.log_blk) ≡ false =
      rw g.blks (ground (arith, length-targets ws)) in
    rw room record {
      clean =
          rw (update_ne s.disk.image (logstart + length s.log_blk) loghdr block (omega arith))
            g.clean;
      same = λ x h. ground (arith, g.same x h, length-targets ws, ap length g.blks);
      blks = rw g.blks (sym (targets-append ws dst block));
      in_room = g.in_room;
      few = rw length-append (omega arith);
      dests = All-targets IsTarget ws dst block g.dests t;
      fits = All-targets IsWord ws dst block g.fits w;
      stored =
          Stored-append 0 (logstart + length s.log_blk) ws s.disk.image dst block g.stored
            (rw g.blks (omega (arith, length-targets ws)));
      past = (RecoversTo-IsClean g.clean g.same, g.past);
    }

-- Installing passes through images that agree with the committed one.
module _ (P : Image → Type 0) (bs : List ℕ) (c : Image)
    (each : (m : Image) → Agrees bs c m → P m) where
  pub log_install-Agrees :
      (i : ℕ) (rest : List ℕ) (d : Disk)
      → All IsTarget rest
      → All (λ b. has b bs ≡ true) rest
      → Agrees bs c d.image
      → All P d.history
      → All P (log_install i rest d).history × Agrees bs c (log_install i rest d).image
  unfolding log_install
  log_install-Agrees i [] d t h a p = (p, a)
  log_install-Agrees i (b ∷ rest) d t h a p =
      log_install-Agrees (suc i) rest (disk_write d b (disk_read d (logstart + i))) t.1 h.1
        (Agrees-update b (disk_read d (logstart + i)) a t.0 h.0) (each d.image a, p)

has_weaken :
    (b : ℕ) (bs rest : List ℕ)
    → All (λ x. has x bs ≡ true) rest
    → All (λ x. has x (b ∷ bs) ≡ true) rest
has_weaken b bs [] h = tt
has_weaken b bs (x ∷ rest) h = (ground (arith, h.0), has_weaken b bs rest h.1)

pub has-All : (bs : List ℕ) → All (λ x. has x bs ≡ true) bs
has-All [] = tt
has-All (b ∷ bs) = (ground arith, has_weaken b bs bs (has-All bs))

-- A transaction after its commit: the images that it went through, and the one that it left.
pub record Committed (start : Image) (ws : List Write) (s : Fs) : Type 0 where
  pub clean : IsClean s.disk.image
  pub effect : (x : ℕ) → IsTarget x → s.disk.image x ≡ applied ws start x
  pub past : All (λ m. RecoversTo start m ⊎ RecoversTo (applied ws start) m) s.disk.history
  pub emptied : s.log_blk ≡ []
  pub in_room : s.log_overflow ≡ false

All-inl : (P Q : Image → Type 0) (ms : List Image) → All P ms → All (λ m. P m ⊎ Q m) ms
All-inl P Q [] h = tt
All-inl P Q (m ∷ ms) h = (inl h.0, All-inl P Q ms h.1)

-- The image right after the header of a transaction is written.
module _ {start : Image} {ws : List Write} {s : Fs} (g : Logging start ws s) where
  abbrev c : Image
  c = update s.disk.image loghdr (encode_loghdr (header_of 1 (length (targets ws)) (targets ws)))

  few_targets : length (targets ws) ≤ logn
  few_targets = rw (length-targets ws) g.few

  header-c : ((header c).committed ≡ 1) × (header_blocks (header c) ≡ targets ws)
  header-c = decode-header_of 1 (targets ws) (omega arith) few_targets g.fits

  installed-c : (x : ℕ) → IsTarget x → installed 0 (targets ws) c x ≡ applied ws start x
  installed-c x t =
      installed-applied 0 ws c start g.dests (omega (arith, g.few))
        (Stored-same 0 ws s.disk.image c g.stored (omega (arith, g.few)) (λ y l l'. ground arith))
        (λ y h. ground (arith, g.same y h)) x t

  -- Once it is committed, recovery completes the transaction, however much of it was installed.
  Agrees-RecoversTo : (m : Image) → Agrees (targets ws) c m → RecoversTo (applied ws start) m
  Agrees-RecoversTo m a =
      let same = header-Agrees a in
      record {
        found = λ x t.
            recovered-committed m (λ e. ground (arith, header-c, same)) x t
            ∙ rw (same, header-c.1)
                (installed-Agrees 0 (targets ws) c m g.dests (omega (arith, few_targets)) a.on_log x
                    (a.elsewhere x)
                  ∙ installed-c x t);
        dests = λ ne. rw (same, header-c.1) g.dests;
      }

  abbrev Outcome : Image → Type 0
  Outcome m = RecoversTo start m ⊎ RecoversTo (applied ws start) m

  d1 : Disk
  d1 = write_loghdr 1 (length (targets ws)) (targets ws) s.disk

  through :
      All Outcome (log_install 0 (targets ws) d1).history
      × Agrees (targets ws) c (log_install 0 (targets ws) d1).image
  unfolding d1 write_loghdr
  through =
      log_install-Agrees Outcome (targets ws) c (λ m a. inr (Agrees-RecoversTo m a)) 0 (targets ws)
        d1 g.dests (has-All (targets ws)) (Agrees-refl (targets ws) c)
        (
          inl (RecoversTo-IsClean g.clean g.same),
          All-inl (RecoversTo start) (RecoversTo (applied ws start)) s.disk.history g.past,
        )

  image-d1 : (x : ℕ) → IsTarget x → (log_install 0 (targets ws) d1).image x ≡ applied ws start x
  unfolding d1 write_loghdr
  image-d1 x t = rw (image-log_install 0 (targets ws) d1) (installed-c x t)

  -- The end of a transaction: it is committed, and every image on the way recovers to the state before
  -- it or to the state after it.
  pub log_commit-Committed : 0 < length ws → Committed start ws (log_commit s)
  unfolding log_commit d1
  log_commit-Committed pos =
      let some_logged : (length (targets ws) == 0) ≡ false = ground (arith, length-targets ws) in
      rw (g.blks, some_logged, g.in_room)
        record {
          clean = (decode-header_of 0 [] (omega arith) (omega arith) tt).0;
          effect = λ x t. ground (arith, image-d1 x t);
          past = (inr (Agrees-RecoversTo _ through.1), through.0);
          emptied = refl;
          in_room = refl;
        }

effect-RecoversTo :
    {start : Image} {ws : List Write} {s : Fs}
    → Committed start ws s
    → (ms : List Image) → All (λ m. RecoversTo start m ⊎ RecoversTo (applied ws start) m) ms
    → All (λ m. RecoversTo start m ⊎ RecoversTo s.disk.image m) ms
effect-RecoversTo c [] h = tt
effect-RecoversTo {start} {ws} {s} c (m ∷ ms) h = (one h.0, effect-RecoversTo c ms h.1)
  where
    one :
        RecoversTo start m ⊎ RecoversTo (applied ws start) m
        → RecoversTo start m ⊎ RecoversTo s.disk.image m
    one (inl before) = inl before
    one (inr after) =
        inr (record { found = λ x t. after.found x t ∙ sym (c.effect x t); dests = after.dests })

-- Every image of a committed transaction recovers to what was before it, or to what is after it.
pub Committed-outcomes :
    {start : Image} {ws : List Write} {s : Fs}
    → Committed start ws s
    → All (λ m. RecoversTo start m ⊎ RecoversTo s.disk.image m) s.disk.history
Committed-outcomes {s} c = effect-RecoversTo c s.disk.history c.past
