-- ===== src/Subnet.antt =====
-- src/subnet: the network configuration and the allocation of subnets.
pub mod Network
pub mod Config
pub mod Watcher
pub mod Allocate
pub mod Acquire
pub mod Renew
mod Tests
