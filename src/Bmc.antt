-- ===== src/Bmc.antt =====
-- src/bmc.c, the best master clock algorithm.
pub mod Memory
pub mod Init
pub mod Foreign
pub mod Update
pub mod Compare
pub mod Spares
pub mod Decision
mod Examples
