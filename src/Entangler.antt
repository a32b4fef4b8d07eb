-- ===== src/Entangler.antt =====
-- entangler/entangler.go: alpha entanglement of a sequence of blocks.
pub mod Index
pub mod State
pub mod Encode
mod Tests
