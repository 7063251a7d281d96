-- ===== src/Rbac.antt =====
-- Roles, their hierarchy and the permissions that they carry: xoloapi/rbac.
pub mod Types
pub mod Permission
pub mod Hierarchy
pub mod Repository
pub mod Service
pub mod Safety
pub mod Requests
pub mod Assigning
pub mod Checks
mod Tests
