-- ===== src/Rsec16.antt =====
-- rsec16: Reed-Solomon coding of shards.
pub mod Parallel
pub mod Chunk
pub mod Words
pub mod Apply
pub mod Fold
pub mod Coder
pub mod Reconstruct
