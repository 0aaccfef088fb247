-- ===== src/Net/Init/Tests.antt =====
-- A run of net_init of src/net.c.
use kernel_hobby.Base.{
  ℕ, ◌*◌, ◌-◌, ◌^◌, ◌≡◌, refl, true, false, none, List, [], some, ◌==◌, if◌then◌else◌,
}
use kernel_hobby.Vm.{zero_page}
use kernel_hobby.Kalloc.{kalloc, take_first}
use kernel_hobby.Virtio.Port.{set_addresses, mmio_magic, mmio_version, mmio_device_id, mmio_status}
use kernel_hobby.Virtio.Handshake.{Store, recorder}
use kernel_hobby.Net.Init.{
  NetCard, Vq, net_init, find_net, bring_up, negotiate, start_net, setup_queue, give_buffers,
  read_mac, print_mac,
}
use kernel_hobby.Net.Init.Bringup.{BringsUp, net_init-BringsUp}

-- the network card is in the slot 2
abbrev answers : ℕ → List Store → ℕ → ℕ
answers i ws off =
    if off == mmio_magic
    then 0x74726976
    else if off == mmio_version
    then 2
    else if off == mmio_device_id
    then if i == 2 then 1 else 2
    else if off == mmio_status
    then 11
    else 2 ^ 32 - 1

abbrev no_queue : Vq
no_queue = record {
  desc = 0;
  avail = 0;
  used = 0;
  used_seen = 0;
  buffers = λ i. record { addr = 0; len = 0; flags = 0; next = 0 };
  avail_idx = 0;
  avail_ring = λ i. 0;
}

abbrev down : NetCard (List Store)
down = record {
  card = [];
  net_base = none;
  net_ok = false;
  my_mac = record { m0 = 0; m1 = 0; m2 = 0; m3 = 0; m4 = 0; m5 = 0 };
  rxq = no_queue;
  txq = no_queue;
  rxbuf = λ i. 0;
  txframe = 0;
  kmem = record { mem = λ a. a - 4096; freelist = 0x87FFF000; freecnt = 1000; refcnt = λ i. 0 };
  out = [];
}

net_init_run :
    ((net_init (recorder answers) down).0 ≡ true)
    × ((net_init (recorder answers) down).1.net_base ≡ some 2)
    × (((net_init (recorder answers) down).1.rxq.buffers 7).addr ≡ 0x87FFF000 - 13 * 4096)
unfolding net_init find_net bring_up negotiate start_net setup_queue give_buffers set_addresses
    read_mac print_mac kalloc take_first zero_page
net_init_run = (refl, refl, refl)

net_init-BringsUp_example : BringsUp (net_init (recorder answers) down)
net_init-BringsUp_example = net_init-BringsUp answers down refl refl
