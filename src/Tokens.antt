-- ===== src/Tokens.antt =====
-- internal/tokens: the store of capability tokens.
pub mod Types
pub mod Id
pub mod Settings
pub mod Grants
pub mod Lineage
pub mod Chain
pub mod Validate
pub mod Prune
pub mod Revoke
pub mod Request
pub mod Persist
pub mod Store
pub mod Disk
pub mod Bounds
pub mod Open
mod Tests
