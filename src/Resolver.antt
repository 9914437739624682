-- ===== src/Resolver.antt =====
-- core/resolver: which features, dependencies and packages a build takes.
pub mod Types
pub mod Requirements
pub mod Queue
pub mod Registry
pub mod Context
pub mod Candidates
pub mod ConflictCache
pub mod Cycles
pub mod Search
mod Examples
