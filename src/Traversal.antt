-- ===== src/Traversal.antt =====
-- The breadth-first loops of xoloapi/ngac/domain/services.py and xoloapi/rbac/domain/services.py,
-- over a dict from a name to the names that it points at, and what such a loop finds.
pub mod Graph
pub mod Reach
pub mod Loop
pub mod Correct
