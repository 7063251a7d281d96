-- ===== src/Ngac/Safety.antt =====
-- Every operation of the service keeps the policy graph well formed.
pub mod Effects
pub mod Edges
pub mod Nodes
