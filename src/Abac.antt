-- ===== src/Abac.antt =====
-- Attribute-based access control, xoloapi/abac: patterns, events and the evaluator.
pub mod Types
pub mod Pattern
pub mod Events
pub mod Documents
pub mod Evaluator
pub mod Repository
pub mod Service
pub mod Deciding
pub mod Effects
pub mod Requests
mod Tests
mod ServiceTests
