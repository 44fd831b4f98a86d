-- ===== src/Auth.antt =====
-- Client authentication, src/auth/.
pub mod Keys
pub mod Hashes
pub mod Repository
pub mod Cache
pub mod Service
pub mod History
pub mod Grants
pub mod Scopes
pub mod Guards
pub mod Admission
pub mod Creation
pub mod Interfaces
pub mod Tests
