-- ===== src/Admin.antt =====
-- The administration of aliases, providers and models: src/admin/admin-aliases.controller.ts and
-- src/admin/admin-providers.controller.ts.
pub mod Aliases
pub mod Views
pub mod Providers
pub mod Numbering
pub mod Guards
pub mod Soundness
pub mod Wholeness
pub mod Integrity
pub mod ProviderTests
pub mod Tests
