-- ===== src/Tests.antt =====
-- Concrete inputs, and the theorems at them.
pub mod Fixtures
pub mod Videos
pub mod Probing
pub mod Requests
pub mod Answers
pub mod Publishing
pub mod Store
pub mod Redis
pub mod Storage
pub mod Api
pub mod Buffers
