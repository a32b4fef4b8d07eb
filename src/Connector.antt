-- ===== src/Connector.antt =====
-- ipfs-connector/: the tree of a file, and the getter that finds blocks through it.
pub mod Ranges
pub mod Getter
pub mod Parity
pub mod Merkle
pub mod Tree
mod Tests
