-- ===== src/Bits.antt =====
-- Exclusive or on unbounded binary numbers: the addition of polynomials over GF(2).
mod Step
pub mod Xor
pub mod Powers
pub use Step.{◌⊕◌}
