-- ===== src/Server.antt =====
-- The community node of Server/: its daemon, and the repairs that nodes do together.
pub mod Types
pub mod Split
pub mod Collab
pub mod Strand
pub mod Node
mod Tests
