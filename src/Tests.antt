-- ===== src/Tests.antt =====
-- Theorems at concrete inputs, and runs of the definitions.
pub mod Poly
pub mod Packets
pub mod Field
pub mod Matrices
pub mod Plans
pub mod Coding
pub mod Volumes
pub mod Files
pub mod Scans
