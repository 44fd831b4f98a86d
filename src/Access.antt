-- ===== src/Access.antt =====
-- The alias allowlist, src/access/alias-access.service.ts and
-- src/database/repositories/client-alias-access.repository.ts.
pub mod Repository
pub mod Service
pub mod Replacement
pub mod Permission
pub mod Tests
