-- ===== src/Fs/Log/Watch.antt =====
-- What every image of the disk satisfies during a transaction, and during a recovery: the superblock stays one
-- that `fs_init` accepts (it reads it before it recovers), and a log that is committed names no block of the log.
use kernel_hobby.Base.{
  ℕ, suc, ◌+◌, ◌≤◌, ◌<◌, ◌≡◌, ◌⊎◌, inl, inr, false, List, [], ◌∷◌, arith, length, All, update, leb,
  ◌==◌, ℕ_discrete, update_ne, Bool-cases,
}
use kernel_hobby.Fs.Format.{Block, loghdr, logstart, logn}
use kernel_hobby.Fs.Disk.{Image, Disk, disk_read, disk_write}
use kernel_hobby.Fs.State.{Fs}
use kernel_hobby.Fs.Log.{write_loghdr, log_install, header_blocks, log_write, log_commit, recover}
use kernel_hobby.Fs.Log.Install.{IsTarget, Write, targets, Stored, Stored-same}
use kernel_hobby.Fs.Log.Header.{header, IsClean, reboot, decode-header_of}
use kernel_hobby.Fs.Log.Atomic.{Logging, length-targets}

module _ (K : Block → Type 0) where
  -- The writes of a transaction that go to the superblock.
  abbrev pub Writes : List Write → Type 0
  Writes ws = All (λ w. w.0 ≡ 0 → K w.1) ws

  -- The log of the image holds these writes.
  pub record Holds (ws : List Write) (m : Image) : Type 0 where
    pub blocks : header_blocks (header m) ≡ targets ws
    pub stored : Stored 0 ws m
    pub dests : All IsTarget (targets ws)
    pub few : length ws ≤ logn
    pub writes : Writes ws

  abbrev pub Sound : Image → Type 0
  Sound m = K (m 0) × (IsClean m ⊎ ((ws : List Write) × Holds ws m))

  -- Every image is sound, the present one included; and so before the commit, and while the log is installed.
  abbrev pub Always : Disk → Type 0
  Always d = Sound d.image × All Sound d.history

  abbrev pub Quiet : Disk → Type 0
  Quiet d = K (d.image 0) × IsClean d.image × All Sound d.history

  abbrev Installing : List Write → Disk → Type 0
  Installing ws d = K (d.image 0) × Holds ws d.image × All Sound d.history

  written_super : (b : ℕ) (v : Block) (m : Image) → (b ≡ 0 → K v) → K (m 0) → K (update m b v 0)
  written_super b v m k a = elim (ℕ_discrete b 0) [
    | yes e ↦ rw e (k e)
    | no ne ↦ rw (update_ne m b 0 v ne) a
  ]

  pub log_write-Quiet :
      (dst : ℕ) (v : Block) (s : Fs) → Quiet s.disk → Quiet (log_write dst v s).disk
  unfolding log_write
  log_write-Quiet dst v s a = elim (Bool-cases (leb logn (length s.log_blk))) [
    | inl full ↦ rw full a
    | inr room ↦
        let b = logstart + length s.log_blk in
        rw room (
          written_super b v s.disk.image (λ e. absurd (omega arith)) a.0,
          rw (update_ne s.disk.image b loghdr v (omega arith)) a.1,
          ((a.0, inl a.1), a.2),
        )
  ]

  Holds-target :
      (ws : List Write) (b : ℕ) (v : Block) (m : Image)
      → IsTarget b
      → Holds ws m
      → Holds ws (update m b v)
  Holds-target ws b v m t h = record {
    blocks = rw (update_ne m b loghdr v (ground (arith, t))) h.blocks;
    stored =
        Stored-same 0 ws m (update m b v) h.stored (omega (arith, h.few))
          (λ y l l'. ground (arith, t));
    dests = h.dests;
    few = h.few;
    writes = h.writes;
  }

  log_install-Installing :
      (all : List Write) (i : ℕ) (ws : List Write) (d : Disk)
      → Stored i ws d.image
      → All IsTarget (targets ws)
      → i + length ws ≤ logn
      → Writes ws
      → Installing all d
      → Installing all (log_install i (targets ws) d)
  unfolding log_install
  log_install-Installing all i [] d st t le w a = a
  log_install-Installing all i (x ∷ ws) d st t le w a =
      let v = disk_read d (logstart + i) in
      log_install-Installing all (suc i) ws (disk_write d x.0 v)
        (Stored-same (suc i) ws d.image (update d.image x.0 v) st.1 (omega arith)
          (λ y l h. ground (arith, t.0)))
        t.1 (omega arith) w.1
        (
          written_super x.0 v d.image (λ e. rw st.0 (w.0 e)) a.0,
          Holds-target all x.0 v d.image t.0 a.1,
          ((a.0, inr (all, a.1)), a.2),
        )

  -- The log is installed, and its header cleared.
  installed-Always :
      (ws : List Write) (d : Disk)
      → Installing ws d
      → Always (write_loghdr 0 0 [] (log_install 0 (targets ws) d))
  unfolding write_loghdr
  installed-Always ws d a =
      let h = a.1 in
      let b = log_install-Installing ws 0 ws d h.stored h.dests (omega (arith, h.few)) h.writes a in
      (
        (b.0, inl (decode-header_of 0 [] (omega arith) (omega arith) tt).0),
        ((b.0, inr (ws, b.1)), b.2),
      )

  pub log_commit-Always :
      {start : Image} {ws : List Write} {s : Fs}
      → Logging start ws s
      → 0 < length ws
      → Writes ws
      → Quiet s.disk
      → Always (log_commit s).disk
  unfolding log_commit write_loghdr
  log_commit-Always {start} {ws} {s} g pos w a =
      let some_logged : (length (targets ws) == 0) ≡ false = ground (arith, length-targets ws) in
      let few : length (targets ws) ≤ logn = omega (arith, length-targets ws, g.few) in
      rw (g.blks, some_logged, g.in_room)
        (installed-Always ws (write_loghdr 1 (length (targets ws)) (targets ws) s.disk) (
          a.0,
          record {
            blocks = (decode-header_of 1 (targets ws) (omega arith) few g.fits).1;
            stored =
                Stored-same 0 ws s.disk.image _ g.stored (omega (arith, g.few))
                  (λ y l h. ground arith);
            dests = g.dests;
            few = g.few;
            writes = w;
          },
          ((a.0, inl a.1), a.2),
        ))

  -- So is every image of a recovery.
  pub recover-Always : (m : Image) → Sound m → Always (recover (reboot m))
  unfolding recover
  recover-Always m (k, inl clean) = rw (recover, clean) ((k, inl clean), tt)
  recover-Always m (k, inr (ws, h)) = elim (Bool-cases ((header m).committed == 0)) [
    | inl e ↦ rw e ((k, inr (ws, h)), tt)
    | inr e ↦ rw (e, h.blocks) (installed-Always ws (reboot m) (k, h, tt))
  ]
