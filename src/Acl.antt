-- ===== src/Acl.antt =====
-- The ACL subsystem, xoloapi/acl: the grants on a resource (`Policy`), their collection
-- (`Repository`), who acts and who is acted on (`Principals`), the operations that read
-- (`Reading`) and those that write (`Service`).
pub mod Types
pub mod Policy
pub mod Repository
pub mod Principals
pub mod Reading
pub mod Service
pub mod Effects
pub mod Invariant
pub mod Requests
pub mod Deciding
pub mod Guards
pub mod Listing
mod Tests
mod ServiceTests
