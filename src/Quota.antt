-- ===== src/Quota.antt =====
-- The monthly token quota, src/quota/ and src/database/repositories/quota.repository.ts.
pub mod Calendar
pub mod Months
pub mod Repository
pub mod Service
pub mod Gate
pub mod Allowance
pub mod Aggregate
pub mod Reconcile
pub mod Repair
pub mod Recount
pub mod Window
pub mod RepairTests
pub mod Tests
