-- ===== src/KeepEngine.antt =====
-- bin/keepEngine: decides by the rules of the .keep file what a cleanup removes.
pub mod Actions
pub mod Nodes
pub mod Graph
mod Tests
pub mod Descend
pub mod LastMatch
pub mod Cleanup
pub mod Main
pub mod Dot
pub mod Stars
