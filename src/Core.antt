-- ===== src/Core.antt =====
-- src/cargo/core: the identity of packages, what they depend on, and their features.
pub mod PackageId
pub mod PackageIdSpec
pub mod Semver
pub mod Platform
pub mod Dependency
pub mod Feature
pub mod Summary
