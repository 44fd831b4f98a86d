-- ===== src/Migrations.antt =====
-- The migrations of the database, src/database/migrations/.
pub mod Runner
pub mod Progress
pub mod Arguments
pub mod Command
pub mod Untouched
pub mod Reports
pub mod Tests
