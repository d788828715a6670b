-- ===== src/Configuration.antt =====
-- The configuration of a run: config/ and the roles as they are written.
pub mod Document
pub mod Loading
pub mod Roles
pub mod Derived
pub mod Configured
pub mod Contracts
mod Faultless
pub mod Sound
mod Samples
