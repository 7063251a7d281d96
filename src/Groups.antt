-- ===== src/Groups.antt =====
-- Security groups, xoloapi/groups, shared by the ACL and the RBAC subsystem.
pub mod Types
pub mod Repository
pub mod Reading
pub mod Meaning
pub mod Names
pub mod Service
pub mod Members
pub mod Invariant
pub mod Safety
pub mod Keeping
pub mod Transfer
pub mod Atomic
pub mod Requests
mod Tests
