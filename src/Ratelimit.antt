-- ===== src/Ratelimit.antt =====
-- The rate limiter, src/ratelimit/.
pub mod Limiter
pub mod Window
pub mod Refinement
pub mod Tests
