-- ===== src/Net/Init.antt =====
-- src/net.c: net_init and setup_queue, over the registers of the cards on the bus.
pub mod Bringup
mod Tests
use kernel_hobby.Base.{
  ℕ, zero, suc, ◌+◌, ◌-◌, ◌*◌, ◌/◌, ◌%◌, ◌^◌, Bool, true, false, ◌&&◌, Option, none, some, List, [],
  ◌∷◌, ◌++◌, update, ◌==◌, if◌then◌else◌, codes,
}
use kernel_hobby.Kalloc.{Kmem, kalloc}
use kernel_hobby.Uart.{uart_putc, uart_puts, uart_dec, hex_digit}
use kernel_hobby.Vm.{zero_page}
use kernel_hobby.Net.Bytes.{Mac, mac_bytes, Ip4, ip_bytes}
use kernel_hobby.Net.Device.{bufsz}
use kernel_hobby.Virtio.{num, vring_desc_f_write}
use kernel_hobby.Virtio.Port.{
  Port, read32, write32, set_addresses, mmio_magic, mmio_version, mmio_device_id, mmio_device_feat,
  mmio_device_feat_sel, mmio_driver_feat, mmio_driver_feat_sel, mmio_queue_sel, mmio_queue_num,
  mmio_queue_ready, mmio_queue_notify, mmio_status, s_acknowledge, s_driver, s_driver_ok,
  s_features_ok,
}

abbrev pub mmio_config : ℕ
mmio_config = 0x100

abbrev pub virtio_net_f_mac : ℕ
virtio_net_f_mac = 5

-- `struct virtq_desc`, with the page of a buffer as its address
pub record Buffer : Type 0 where
  pub addr : ℕ
  pub len : ℕ
  pub flags : ℕ
  pub next : ℕ

-- `struct vq`, with what the pages of `desc` and `avail` hold
pub record Vq : Type 0 where
  pub desc : ℕ
  pub avail : ℕ
  pub used : ℕ
  pub used_seen : ℕ
  pub buffers : ℕ → Buffer
  pub avail_idx : ℕ
  pub avail_ring : ℕ → ℕ

-- the static variables with the cards, the page allocator, and what went out; `net_base` is the number of the
-- slot, and none for 0
pub record NetCard (D : Type 0) : Type 0 where
  pub card : D
  pub net_base : Option ℕ
  pub net_ok : Bool
  pub my_mac : Mac
  pub rxq : Vq
  pub txq : Vq
  pub rxbuf : ℕ → ℕ
  pub txframe : ℕ
  pub kmem : Kmem
  pub out : List ℕ

abbrev pub hex_byte : ℕ → List ℕ
hex_byte b = hex_digit (b / 16) ∷ hex_digit (b % 16) ∷ []

-- the loops of `print_mac` and `print_ip`, with what stands before each further byte
abbrev pub joined : (ℕ → List ℕ) → ℕ → List ℕ → List ℕ
joined show mark [] = []
joined show mark (b ∷ []) = show b
joined show mark (b ∷ c ∷ bs) = show b ++ mark ∷ joined show mark (c ∷ bs)

unfoldable pub print_mac : Mac → List ℕ → List ℕ
print_mac m out = out ++ joined hex_byte b':' (mac_bytes m)

unfoldable pub print_ip : Ip4 → List ℕ → List ℕ
print_ip ip out = out ++ joined (λ b. uart_dec b []) b'.' (ip_bytes ip)

module _ {D : Type 0} (bus : ℕ → Port D) where
  unfoldable pub is_net : ℕ → D → Bool
  is_net i d =
      read32 (bus i) mmio_magic d == 0x74726976
      && read32 (bus i) mmio_version d == 2
      && read32 (bus i) mmio_device_id d == 1

  -- the scan of the slots from `i` on, with `n` left
  unfoldable pub find_net : ℕ → ℕ → D → Option ℕ
  unfolding is_net
  find_net zero i d = none
  find_net (suc n) i d = let rest = find_net n (i + 1) d in if is_net i d then some i else rest

-- what follows is on the card in the slot that was found
module _ {D : Type 0} (port : Port D) where
  -- from the reset to FEATURES_OK
  unfoldable pub negotiate : D → D
  negotiate d =
      let d1 =
        write32 port mmio_status (s_acknowledge + s_driver)
          (write32 port mmio_status s_acknowledge (write32 port mmio_status 0 d)) in
      let d2 = write32 port mmio_device_feat_sel 0 d1 in
      let lo = read32 port mmio_device_feat d2 / 2 ^ virtio_net_f_mac % 2 * 2 ^ virtio_net_f_mac in
      let d3 = write32 port mmio_driver_feat lo (write32 port mmio_driver_feat_sel 0 d2) in
      let d4 = write32 port mmio_device_feat_sel 1 d3 in
      let hi = read32 port mmio_device_feat d4 % 2 in
      write32 port mmio_status (s_acknowledge + s_driver + s_features_ok)
        (write32 port mmio_driver_feat hi (write32 port mmio_driver_feat_sel 1 d4))

  -- `setup_queue`: the queue, the page allocator, and the card
  unfoldable pub setup_queue : ℕ → Kmem → D → Vq × Kmem × D
  setup_queue qidx k d =
      let (desc, k1) = kalloc k in
      let (avail, k2) = kalloc k1 in
      let (used, k3) = kalloc k2 in
      (
        record {
          desc = desc;
          avail = avail;
          used = used;
          used_seen = 0;
          buffers = λ i. record { addr = 0; len = 0; flags = 0; next = 0 };
          avail_idx = 0;
          avail_ring = λ i. 0;
        },
        zero_page used (zero_page avail (zero_page desc k3)),
        write32 port mmio_queue_ready 1 (
            set_addresses port desc avail used
              (write32 port mmio_queue_num num (write32 port mmio_queue_sel qidx d))),
      )

  unfoldable pub read_mac : D → Mac
  read_mac d = record {
    m0 = port.load d mmio_config % 256;
    m1 = port.load d (mmio_config + 1) % 256;
    m2 = port.load d (mmio_config + 2) % 256;
    m3 = port.load d (mmio_config + 3) % 256;
    m4 = port.load d (mmio_config + 4) % 256;
    m5 = port.load d (mmio_config + 5) % 256;
  }

-- the loop that gives the buffers, from `i` on with `n` left
unfoldable pub give_buffers : ℕ → ℕ → Vq → (ℕ → ℕ) → Kmem → Vq × (ℕ → ℕ) × Kmem
give_buffers zero i q rxbuf k = (q, rxbuf, k)
give_buffers (suc n) i q rxbuf k =
    let (page, k') = kalloc k in
    give_buffers n (i + 1)
      (record q {
        buffers =
            update q.buffers i
              (record { addr = page; len = bufsz; flags = vring_desc_f_write; next = 0 });
        avail_ring = update q.avail_ring i i;
      })
      (update rxbuf i page) k'

module _ {D : Type 0} (port : Port D) where
  -- the queues, the buffers and the end of `net_init`, on a card that took the features
  unfoldable pub start_net : D → NetCard D → NetCard D
  start_net d s =
      let (rx, k1, d1) = setup_queue port 0 s.kmem d in
      let (tx, k2, d2) = setup_queue port 1 k1 d1 in
      let (rx', rxbuf, k3) = give_buffers num 0 rx s.rxbuf k2 in
      let (txframe, k4) = kalloc k3 in
      record s {
        my_mac = read_mac port d;
        rxq = record rx' { avail_idx = num };
        txq = tx;
        rxbuf = rxbuf;
        txframe = txframe;
        kmem = k4;
        net_ok = true;
        out =
            uart_putc b'\n'
              (print_mac (read_mac port d) (uart_puts (codes "[ok] virtio-net ready, mac ") s.out));
        card =
            write32 port mmio_queue_notify 0 (
              write32 port mmio_status (s_acknowledge + s_driver + s_features_ok + s_driver_ok) d2);
      }

  -- the initialisation of the card that was found: true for 0
  unfoldable pub bring_up : NetCard D → Bool × NetCard D
  bring_up s =
      let d = negotiate port s.card in
      if read32 port mmio_status d / 8 % 2 == 0
      then (
        false,
        record s { card = d; out = uart_puts (codes "[net] FEATURES_OK rejected\n") s.out },
      )
      else (true, start_net d s)

abbrev pub found : {D : Type 0} → (ℕ → Port D) → Option ℕ → NetCard D → Bool × NetCard D
found bus none s =
    (false, record s { out = uart_puts (codes "[net] no virtio-net device\n") s.out })
found bus (some i) s = bring_up (bus i) (record s { net_base = some i })

-- `net_init`, at boot: true for 0 and false for -1
unfoldable pub net_init : {D : Type 0} → (ℕ → Port D) → NetCard D → Bool × NetCard D
net_init bus s = found bus (find_net bus 8 0 s.card) s
