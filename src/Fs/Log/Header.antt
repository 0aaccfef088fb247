-- ===== src/Fs/Log/Header.antt =====
-- The log header on an image: what recovery reads in it, and what it does then.
use kernel_hobby.Base.{
  ℕ, zero, suc, ◌≤◌, ◌<◌, ◌≡◌, ◌≢◌, refl, ap, true, List, [], ◌∷◌, arith, length, take, fill,
  take_all, All, IsWord, length-fill,
}
use kernel_hobby.Fs.Format.{Loghdr, loghdr, logn, decode_loghdr, encode_loghdr}
use kernel_hobby.Fs.Format.RoundTrip.{decode_loghdr-encode_loghdr}
use kernel_hobby.Fs.Disk.{Image, Disk}
use kernel_hobby.Fs.Log.{recover, header_blocks}
use kernel_hobby.Fs.Log.Install.{IsTarget, installed, image-log_install}

-- the header that an image holds
abbrev pub header : Image → Loghdr
header m = decode_loghdr (m loghdr)

abbrev pub IsClean : Image → Type 0
IsClean m = (header m).committed ≡ 0

-- the header that `write_loghdr` writes
abbrev pub header_of : ℕ → ℕ → List ℕ → Loghdr
header_of committed n blks = record { committed = committed; n = n; blk = fill logn (take n blks) }

-- the disk at power-on
abbrev pub reboot : Image → Disk
reboot m = record { ready = true; image = m; history = [] }

-- what recovery makes of an image
unfoldable pub recovered : Image → Image
recovered m = (recover (reboot m)).image

pub recovered-IsClean : (m : Image) → IsClean m → recovered m ≡ m
unfolding recovered recover
recovered-IsClean m h = rw (recovered, recover, h)

-- Recovery of a committed transaction installs the log, and touches nothing else but the header.
pub recovered-committed :
    (m : Image)
    → (header m).committed ≢ 0
    → (x : ℕ) → IsTarget x
    → recovered m x ≡ installed 0 (header_blocks (header m)) m x
unfolding recovered recover
recovered-committed m h x t =
    ground (arith, image-log_install 0 (header_blocks (header m)) (reboot m))

fill_all : (n : ℕ) (xs : List ℕ) → length xs ≤ n → take (length xs) (fill n xs) ≡ xs
unfolding fill
fill_all n [] h = refl
fill_all zero (x ∷ xs) h = absurd (omega arith)
fill_all (suc n) (x ∷ xs) h = ap (λ t. x ∷ t) (fill_all n xs (omega arith))

All-fill : (n : ℕ) (xs : List ℕ) → All IsWord xs → All IsWord (fill n xs)
unfolding fill
All-fill zero xs h = tt
All-fill (suc n) [] h = (omega arith, All-fill n [] tt)
All-fill (suc n) (x ∷ xs) h = (h.0, All-fill n xs h.1)

-- The header of a transaction is read back as it was written.
pub decode-header_of :
    (c : ℕ) (bs : List ℕ)
    → c < 2
    → length bs ≤ logn
    → All IsWord bs
    → let h = decode_loghdr (encode_loghdr (header_of c (length bs) bs)) in
      (h.committed ≡ c) × (header_blocks h ≡ bs)
unfolding header_blocks
decode-header_of c bs hc le w =
    rw
      (
        decode_loghdr-encode_loghdr (header_of c (length bs) bs) (omega arith) (omega arith)
            (All-fill logn (take (length bs) bs) (rw (take_all (length bs) bs (omega arith)) w))
            (length-fill logn (take (length bs) bs)),
        take_all (length bs) bs (omega arith),
      )
      (refl, ground (arith, fill_all logn bs le))
