-- ===== src/ApiKeys.antt =====
-- API keys, xoloapi/apikeys, and the tests of a request by its key, xoloapi/middleware/apikey.py.
pub mod Types
pub mod Repository
pub mod Service
pub mod Access
pub mod Lists
pub mod Invariant
pub mod Keeping
pub mod Requests
pub mod Accepted
pub mod Retired
pub mod AdminTokens
pub mod Deciding
mod Tests
