-- ===== src/Net/Bytes.antt =====
-- src/net.c: the byte order, the addresses, and the buffers that frames are read into.
use kernel_hobby.Base.{
  ℕ, zero, suc, ◌+◌, ◌*◌, ◌/◌, ◌%◌, ◌^◌, Bool, ◌&&◌, List, [], ◌∷◌, length, get_or, ltb, ◌==◌,
  if◌then◌else◌,
}

-- `put16` and `put32`: the bytes that they write, the highest first
abbrev pub put16 : ℕ → List ℕ
put16 v = (v / 256 % 256) ∷ (v % 256) ∷ []

abbrev pub put32 : ℕ → List ℕ
put32 v = (v / 2 ^ 24 % 256) ∷ (v / 2 ^ 16 % 256) ∷ (v / 2 ^ 8 % 256) ∷ (v % 256) ∷ []

-- `get16` and `get32` of a buffer
abbrev pub get16 : (ℕ → ℕ) → ℕ → ℕ
get16 f p = f p * 256 + f (p + 1)

abbrev pub get32 : (ℕ → ℕ) → ℕ → ℕ
get32 f p = f p * 2 ^ 24 + f (p + 1) * 2 ^ 16 + f (p + 2) * 2 ^ 8 + f (p + 3)

-- an address of six bytes, and one of four
pub record Mac : Type 0 where
  pub m0 : ℕ
  pub m1 : ℕ
  pub m2 : ℕ
  pub m3 : ℕ
  pub m4 : ℕ
  pub m5 : ℕ

pub record Ip4 : Type 0 where
  pub i0 : ℕ
  pub i1 : ℕ
  pub i2 : ℕ
  pub i3 : ℕ

abbrev pub mac_bytes : Mac → List ℕ
mac_bytes m = m.m0 ∷ m.m1 ∷ m.m2 ∷ m.m3 ∷ m.m4 ∷ m.m5 ∷ []

abbrev pub ip_bytes : Ip4 → List ℕ
ip_bytes a = a.i0 ∷ a.i1 ∷ a.i2 ∷ a.i3 ∷ []

-- `copy` of an address out of a buffer
abbrev pub mac_at : (ℕ → ℕ) → ℕ → Mac
mac_at f p = record {
  m0 = f p;
  m1 = f (p + 1);
  m2 = f (p + 2);
  m3 = f (p + 3);
  m4 = f (p + 4);
  m5 = f (p + 5);
}

abbrev pub ip_at : (ℕ → ℕ) → ℕ → Ip4
ip_at f p = record { i0 = f p; i1 = f (p + 1); i2 = f (p + 2); i3 = f (p + 3) }

abbrev pub eq4 : Ip4 → Ip4 → Bool
eq4 a b = a.i0 == b.i0 && a.i1 == b.i1 && a.i2 == b.i2 && a.i3 == b.i3

-- `copy` of `n` bytes out of a buffer
abbrev pub bytes_at : (ℕ → ℕ) → ℕ → ℕ → List ℕ
bytes_at f p zero = []
bytes_at f p (suc n) = f p ∷ bytes_at f (p + 1) n

-- a buffer after a copy of the bytes to its start: the rest keeps what it had
unfoldable pub overlay : List ℕ → (ℕ → ℕ) → ℕ → ℕ
overlay bs f i = if ltb i (length bs) then get_or bs i 0 else f i

abbrev pub my_ip : Ip4
my_ip = record { i0 = 10; i1 = 0; i2 = 2; i3 = 15 }

abbrev pub gw_ip : Ip4
gw_ip = record { i0 = 10; i1 = 0; i2 = 2; i3 = 2 }

abbrev pub dns_ip : Ip4
dns_ip = record { i0 = 10; i1 = 0; i2 = 2; i3 = 3 }
