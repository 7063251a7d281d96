-- ===== src/Ngac.antt =====
-- The NGAC subsystem, xoloapi/ngac: the policy graph and its access check (`Graph`), the
-- collections that store it (`Repository`), and the operations on them (`Service`).
pub mod Types
pub mod Graph
pub mod Repository
pub mod Service
pub mod Invariant
pub mod Safety
pub mod Requests
mod Tests
