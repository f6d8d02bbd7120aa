-- ===== src/Compat.antt =====
-- src/services/compatibility_rules.py, src/services/compatibility_engine.py and what they use: the
-- check of a build and the filter of candidates.
pub mod Fields
pub mod Rules
pub mod FormFactor
pub mod Sockets
pub mod CpuPower
mod SocketTests
pub mod View
pub mod Check
pub mod Wattage
pub mod Validate
pub mod Report
pub mod Blocking
pub mod Filtering
pub mod Known
pub mod Silent
pub mod Supply
pub mod Power
pub mod Scale
mod Examples
