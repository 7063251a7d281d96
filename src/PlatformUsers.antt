-- ===== src/PlatformUsers.antt =====
-- The users of the platform console, xoloapi/platform_users.
pub mod Types
pub mod Repository
pub mod Service
pub mod Keeping
pub mod Requests
mod Tests
