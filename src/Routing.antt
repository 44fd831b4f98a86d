-- ===== src/Routing.antt =====
-- Routing of a request along a chain of providers, src/routing/.
pub mod Strategy
pub mod Order
pub mod Sampling
pub mod Cursor
pub mod Rotation
pub mod Service
pub mod Outcome
pub mod Availability
pub mod Healthy
mod Tests
