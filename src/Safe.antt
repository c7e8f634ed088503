-- ===== src/Safe.antt =====
-- pkg/libol/safe.go: the locked maps that every cache of the switch is built on.
-- Each method holds its lock for its whole body, so a method is one step on the record. `size` is
-- the bound given at creation, 0 for none; the sizes that the program uses are not negative.
pub mod Full
pub mod StrStr
pub mod StrMap
pub mod StrInt64
pub mod Var
