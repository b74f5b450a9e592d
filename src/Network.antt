-- ===== src/Network.antt =====
-- pkg/network: addresses and the Pod IP allocator.
pub mod Addr
pub mod Parse
pub mod Print
mod ParseTests
pub mod Ipam
