-- ===== src/Blueprint.antt =====
-- internal/blueprint: environment templates.
pub mod Slug
pub mod Values
pub mod Library
pub mod Document
pub mod Templates
pub mod Validation
pub mod Instantiation
pub mod Default
pub mod Sample
pub mod Tests
