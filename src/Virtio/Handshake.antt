-- ===== src/Virtio/Handshake.antt =====
-- The order of the stores that brings a virtio card up: reset, ACKNOWLEDGE, DRIVER, the features, FEATURES_OK,
-- the queues one after another, each with all of its addresses before it is ready, and DRIVER_OK. Only then is
-- the card notified.
use kernel_hobby.Base.{
  ℕ, ◌+◌, Bool, true, false, Option, none, some, List, [], ◌∷◌, ◌==◌, ◌||◌, if◌then◌else◌, ◌>>=◌,
}
use kernel_hobby.Virtio.Port.{
  Port, mmio_device_feat_sel, mmio_driver_feat, mmio_driver_feat_sel, mmio_queue_sel,
  mmio_queue_num, mmio_queue_ready, mmio_queue_notify, mmio_status, mmio_queue_desc_lo,
  mmio_queue_desc_hi, mmio_driver_desc_lo, mmio_driver_desc_hi, mmio_device_desc_lo,
  mmio_device_desc_hi,
}

-- how far a card is; `at_queue k` has a queue selected and `k` of its registers set
pub data Phase : Type 0 where
  idle was_reset acknowledged driving agreed queued live : Phase
  at_queue : ℕ → Phase

-- a store of a status
abbrev pub after_status : ℕ → Phase → Option Phase
after_status v was_reset = if v == 1 then some acknowledged else none
after_status v acknowledged = if v == 1 + 2 then some driving else none
after_status v driving = if v == 1 + 2 + 8 then some agreed else none
after_status v queued = if v == 1 + 2 + 8 + 4 then some live else none
after_status v _ = none

-- the registers of a queue, in turn
abbrev pub queue_registers : List ℕ
queue_registers =
    mmio_queue_num ∷ mmio_queue_desc_lo ∷ mmio_queue_desc_hi ∷ mmio_driver_desc_lo
    ∷ mmio_driver_desc_hi ∷ mmio_device_desc_lo ∷ mmio_device_desc_hi ∷ mmio_queue_ready ∷ []

abbrev pub in_turn : ℕ → List ℕ → ℕ → ℕ → Option Phase
in_turn off [] i k = none
in_turn off (r ∷ []) i k = if off == r then if i == k then some queued else none else none
in_turn off (r ∷ r' ∷ rs) i k =
    let rest = in_turn off (r' ∷ rs) (i + 1) k in
    if i == k then if off == r then some (at_queue (k + 1)) else none else rest

-- a store of another register
abbrev pub after_register : ℕ → Phase → Option Phase
after_register off driving =
    if off == mmio_device_feat_sel || off == mmio_driver_feat || off == mmio_driver_feat_sel
    then some driving
    else none
after_register off agreed = if off == mmio_queue_sel then some (at_queue 0) else none
after_register off queued = if off == mmio_queue_sel then some (at_queue 0) else none
after_register off (at_queue k) = in_turn off queue_registers 0 k
after_register off live = if off == mmio_queue_notify then some live else none
after_register off _ = none

abbrev pub advance : ℕ → ℕ → Phase → Option Phase
advance off v p =
    if off == mmio_status
    then if v == 0 then some was_reset else after_status v p
    else after_register off p

-- A store to the card in a slot, and all of them, the last first.
pub record Store : Type 0 where
  pub slot : ℕ
  pub off : ℕ
  pub value : ℕ

abbrev pub advanced : Bool → Store → Phase → Option Phase
advanced true w p = advance w.off w.value p
advanced false w p = none

-- Where the stores bring the card in the slot `i`, if they are in order and none goes to another card.
abbrev pub phase_of : ℕ → List Store → Option Phase
phase_of i [] = some idle
phase_of i (w ∷ ws) = phase_of i ws >>= advanced (i == w.slot) w

abbrev pub is_live : Phase → Bool
is_live live = true
is_live _ = false

-- Cards that keep what is stored, and answer a load as they like after that.
abbrev pub recorder : (ℕ → List Store → ℕ → ℕ) → ℕ → Port (List Store)
recorder answers i = record {
  load = λ ws off. answers i ws off;
  store = λ off v ws. record { slot = i; off = off; value = v } ∷ ws;
}
