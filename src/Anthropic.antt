-- ===== src/Anthropic.antt =====
-- The Anthropic API over the gateway, src/anthropic/.
pub mod Types
pub mod Request
pub mod Body
pub mod Response
pub mod ToolOrder
pub mod RoundTrip
pub mod Tests
pub mod Stream
