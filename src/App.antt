-- ===== src/App.antt =====
-- pkg/olsw/app: what the switch does with the frames of its points, after Access.
pub mod Online
pub mod NeighborTable
pub mod Request
