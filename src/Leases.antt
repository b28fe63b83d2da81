-- ===== src/Leases.antt =====
-- src/leases.rs: discovery of the guest's address in the DHCP lease file and in the ARP table.
pub mod Mac
pub mod Scan
pub mod Arp
pub mod Tests
