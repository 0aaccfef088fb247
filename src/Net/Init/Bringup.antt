-- ===== src/Net/Init/Bringup.antt =====
-- src/net.c: net_init keeps to the order of the stores, and stores to the card that it found only.
use kernel_hobby.Base.{
  ℕ, ◌%◌, ◌/◌, ◌==◌, ◌≡◌, refl, Bool, true, false, Bool-cases, inl, inr, Option, none, some, List,
  [], arith, ◌>>=◌,
}
use kernel_hobby.Virtio.Port.{Port, read32, set_addresses, mmio_status}
use kernel_hobby.Virtio.Handshake.{Phase, idle, agreed, live, is_live, Store, phase_of, recorder}
use kernel_hobby.Net.Init.{
  NetCard, negotiate, setup_queue, start_net, bring_up, find_net, found, net_init,
}

abbrev pub slot_of : Option ℕ → ℕ
slot_of none = 0
slot_of (some i) = i

-- Where the stores have brought the card that was found: it is live if the driver is ready, and the result
-- is 0.
abbrev pub BringsUp : Bool × NetCard (List Store) → Type 0
BringsUp (ok, s) =
    (p : Phase) × (phase_of (slot_of s.net_base) s.card ≡ some p)
    × (s.net_ok ≡ is_live p)
    × (ok ≡ is_live p)

==_self : (i : ℕ) → (i == i) ≡ true
==_self i = ground arith

start_net_ok :
    {D : Type 0} (port : Port D) (d : D) (s : NetCard D) → (start_net port d s).net_ok ≡ true
unfolding start_net
start_net_ok port d s = refl

start_net_base :
    {D : Type 0} (port : Port D) (d : D) (s : NetCard D)
    → (start_net port d s).net_base ≡ s.net_base
unfolding start_net
start_net_base port d s = refl

module _ (answers : ℕ → List Store → ℕ → ℕ) where
  negotiate_phase : (i : ℕ) → phase_of i (negotiate (recorder answers i) []) ≡ some agreed
  unfolding negotiate
  negotiate_phase i = rw ==_self refl

  start_net_phase :
      (i : ℕ) (s : NetCard (List Store))
      → phase_of i (start_net (recorder answers i) (negotiate (recorder answers i) []) s).card
        ≡ some live
  unfolding start_net setup_queue set_addresses
  start_net_phase i s = rw (==_self, negotiate_phase, ◌>>=◌) refl

  bring_up-BringsUp :
      (i : ℕ) (s : NetCard (List Store))
      → s.card ≡ []
      → s.net_ok ≡ false
      → s.net_base ≡ some i
      → BringsUp (bring_up (recorder answers i) s)
  unfolding bring_up
  bring_up-BringsUp i s e down at =
      let ws = negotiate (recorder answers i) [] in
      rw e (elim (Bool-cases (read32 (recorder answers i) mmio_status ws / 8 % 2 == 0)) [
        | inl rejected ↦
            (agreed, rw (rejected, at, negotiate_phase) refl, rw rejected down, rw rejected refl)
        | inr accepted ↦ (
          live,
          rw (accepted, start_net_base (recorder answers i) ws (record s { card = [] }), at)
              (start_net_phase i _),
          rw accepted (start_net_ok (recorder answers i) ws (record s { card = [] })),
          rw accepted refl,
        )
      ])

  found-BringsUp :
      (slot : Option ℕ) (s : NetCard (List Store))
      → s.card ≡ []
      → s.net_ok ≡ false
      → BringsUp (found (recorder answers) slot s)
  found-BringsUp none s e down = (idle, rw e refl, down, refl)
  found-BringsUp (some i) s e down =
      bring_up-BringsUp i (record s { net_base = some i }) e down refl

-- Whatever the cards answer: all the stores of `net_init` at boot go to the card that it found, in the order of
-- the handshake. The result is 0, and the driver ready, exactly when this card is live.
pub net_init-BringsUp :
    (answers : ℕ → List Store → ℕ → ℕ) (s : NetCard (List Store))
    → s.card ≡ []
    → s.net_ok ≡ false
    → BringsUp (net_init (recorder answers) s)
unfolding net_init
net_init-BringsUp answers s e down =
    found-BringsUp answers (find_net (recorder answers) 8 0 s.card) s e down
