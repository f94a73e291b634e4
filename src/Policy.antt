-- ===== src/Policy.antt =====
-- internal/policy: the engine that decides a canonical request by deny-wins rules.
pub mod Glob
pub mod Path
pub mod Query
pub mod Evaluate
pub mod Tests
