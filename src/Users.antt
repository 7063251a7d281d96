-- ===== src/Users.antt =====
-- The tenant users, xoloapi/users, as far as the other components look them up.
pub mod Types
pub mod Resolution
