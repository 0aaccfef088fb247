-- ===== src/Net.antt =====
-- src/net.c: frames, ARP, IP, UDP, ICMP, DNS and TCP, over the two queues of the network card.
pub mod Bytes
pub mod Checksum
pub mod Device
pub mod Init
pub mod Arp
pub mod Ip
pub mod Udp
pub mod Icmp
pub mod Dns
pub mod Tcp
pub mod Demo
mod Tests
