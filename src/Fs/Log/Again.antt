-- ===== src/Fs/Log/Again.antt =====
-- A power failure during the recovery of the log: the next recovery gives the same blocks.
use kernel_hobby.Base.{
  ℕ, ◌≤◌, ◌≢◌, inl, inr, ◌∙◌, List, [], arith, length, All, ◌==◌, Bool-cases, length-take, sym,
}
use kernel_hobby.Fs.Format.{Loghdr, logn}
use kernel_hobby.Fs.Disk.{Image}
use kernel_hobby.Fs.Log.{write_loghdr, log_install, header_blocks, recover}
use kernel_hobby.Fs.Log.Install.{Agrees, Agrees-refl, installed-Agrees}
use kernel_hobby.Fs.Log.Header.{
  header, IsClean, reboot, recovered, recovered-committed, decode-header_of,
}
use kernel_hobby.Fs.Log.Atomic.{
  RecoversTo, RecoversTo-IsClean, header-Agrees, log_install-Agrees, has-All,
}

header_blocks_few : (h : Loghdr) → length (header_blocks h) ≤ logn
unfolding header_blocks
header_blocks_few h = ground (arith, length-take logn h.blk, length-take h.n h.blk)

-- An image whose log is committed, and one that differs from it only in blocks that the log is for.
module _ {goal m : Image} (r : RecoversTo goal m) (ne : (header m).committed ≢ 0) where
  abbrev bs : List ℕ
  bs = header_blocks (header m)

  Agrees-RecoversTo : (m' : Image) → Agrees bs m m' → RecoversTo goal m'
  Agrees-RecoversTo m' a =
      let same = header-Agrees a in
      record {
        found = λ x t.
            recovered-committed m' (λ e. ne (ground (arith, same))) x t
            ∙ rw same (
                installed-Agrees 0 bs m m' (r.dests ne)
                  (omega (arith, header_blocks_few (header m))) a.on_log x (a.elsewhere x))
            ∙ sym (recovered-committed m ne x t)
            ∙ r.found x t;
        dests = λ _. rw same (r.dests ne);
      }

  install-RecoversTo :
      All (RecoversTo goal) (log_install 0 bs (reboot m)).history
      × Agrees bs m (log_install 0 bs (reboot m)).image
  install-RecoversTo =
      log_install-Agrees (RecoversTo goal) bs m Agrees-RecoversTo 0 bs (reboot m) (r.dests ne)
        (has-All bs) (Agrees-refl bs m) tt

recover-IsClean : (m : Image) → IsClean (recover (reboot m)).image
unfolding recover write_loghdr
recover-IsClean m = elim (Bool-cases ((header m).committed == 0)) [
  | inl e ↦ rw e (ground arith)
  | inr e ↦ rw e (decode-header_of 0 [] (omega arith) (omega arith) tt).0
]

past-RecoversTo :
    {goal : Image} (m : Image)
    → RecoversTo goal m
    → All (RecoversTo goal) (recover (reboot m)).history
unfolding recover write_loghdr
past-RecoversTo {goal} m r = elim (Bool-cases ((header m).committed == 0)) [
  | inl e ↦ rw e tt
  | inr e ↦
      let ne : (header m).committed ≢ 0 = ground arith in
      let (past, a) = install-RecoversTo r ne in rw e (Agrees-RecoversTo r ne _ a, past)
]

-- Each image of a recovery, and the one that it leaves, recovers to the same blocks.
pub recover-RecoversTo :
    {goal : Image} (m : Image)
    → RecoversTo goal m
    → All (RecoversTo goal) (recover (reboot m)).history
      × RecoversTo goal (recover (reboot m)).image
unfolding recovered
recover-RecoversTo m r = (past-RecoversTo m r, RecoversTo-IsClean (recover-IsClean m) r.found)
