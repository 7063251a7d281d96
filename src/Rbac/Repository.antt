-- ===== src/Rbac/Repository.antt =====
-- The repositories of xoloapi/rbac/infrastructure. The `try` of each method of the first two turns an
-- outage into a `DatabaseError`; the catalog lets it escape.
pub mod Roles
pub mod Assignments
pub mod Catalog
