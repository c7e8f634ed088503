-- ===== src/Cache.antt =====
-- pkg/olsw/cache: what the switch remembers of networks, leases, points and users.
pub mod Lease
pub mod Points
pub mod Users
