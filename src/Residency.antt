-- ===== src/Residency.antt =====
-- Device memory that outlives a token: bpd/lib/dev_residency.py.
pub mod Slab
pub mod KvCache
pub mod DevLength
pub mod DevAppend
pub mod DevReplay
pub mod Profile
mod Tests
mod DevTests
