-- ===== src/Protocol.antt =====
-- pkg/libol/protocol.go: the headers of Ethernet, VLAN, ARP, IPv4, TCP and UDP.
-- A byte is a number below 256. A decoder returns the record as far as it was filled, with the
-- error; `none` is a panic.
pub mod Ether
pub mod Vlan
pub mod Arp
pub mod Ip4
pub mod Tcp
pub mod Udp
