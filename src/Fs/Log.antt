-- ===== src/Fs/Log.antt =====
-- src/fs.c, the write-ahead log: log_begin, log_write, log_install, log_commit, recover.
pub mod Install
pub mod Header
pub mod Atomic
pub mod Watch
pub mod Again
use kernel_hobby.Base.{
  ℕ, zero, suc, ◌+◌, Bool, true, false, List, [], ◌∷◌, ◌++◌, length, take, fill, leb, ltb, ◌==◌,
  min, if◌then◌else◌,
}
use kernel_hobby.Fs.Format.{Block, Loghdr, loghdr, logstart, logn, encode_loghdr, decode_loghdr}
use kernel_hobby.Fs.Disk.{Disk, disk_read, disk_write}
use kernel_hobby.Fs.State.{Fs}

-- `blk[i] = i < n ? blks[i] : 0` for the LOGN entries
unfoldable pub write_loghdr : ℕ → ℕ → List ℕ → Disk → Disk
write_loghdr committed n blks d =
    disk_write d loghdr
      (encode_loghdr (record { committed = committed; n = n; blk = fill logn (take n blks) }))

unfoldable pub log_begin : Fs → Fs
log_begin s = record s { log_blk = []; log_overflow = false }

unfoldable pub log_write : ℕ → Block → Fs → Fs
log_write dst block s =
    if leb logn (length s.log_blk) then record s { log_overflow = true } else record s {
      disk = disk_write s.disk (logstart + length s.log_blk) block;
      log_blk = s.log_blk ++ dst ∷ [];
    }

-- from log block number `i` on
unfoldable pub log_install : ℕ → List ℕ → Disk → Disk
log_install i [] d = d
log_install i (b ∷ bs) d = log_install (suc i) bs (disk_write d b (disk_read d (logstart + i)))

unfoldable pub log_commit : Fs → Fs
unfolding write_loghdr log_install
log_commit s =
    if length s.log_blk == 0
    then s
    else if s.log_overflow
    then record s { log_blk = []; log_overflow = false }
    else record s {
      disk =
          write_loghdr 0 0 []
            (log_install 0 s.log_blk (write_loghdr 1 (length s.log_blk) s.log_blk s.disk));
      log_blk = [];
    }

-- the destinations that a header names: `n` of them, at most LOGN
unfoldable pub header_blocks : Loghdr → List ℕ
header_blocks h = take (if ltb logn h.n then logn else h.n) h.blk

unfoldable pub recover : Disk → Disk
unfolding write_loghdr log_install header_blocks
recover d =
    let h = decode_loghdr (disk_read d loghdr) in
    if h.committed == 0 then d else write_loghdr 0 0 [] (log_install 0 (header_blocks h) d)
