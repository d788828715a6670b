-- ===== src/Contracts.antt =====
-- contracts/: the values that the parts of the harness hand to one another.
pub mod Status
pub mod Budgets
pub mod Messages
