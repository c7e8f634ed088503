-- ===== src/Examples.antt =====
-- The theorems at concrete inputs, where their hypotheses hold.
mod Texts
mod SafeMaps
mod Messages
mod Headers
mod Leases
mod Bridging
mod Logins
mod Taps
mod Arps
mod TapWorkers
mod Sockets
mod Applications
mod Switching
mod SocketWorkers
mod PointWorkers
mod Requests
mod Firewalls
