-- ===== src/Anthropic/Stream.antt =====
-- The stream adapter, src/anthropic/adapters/stream-adapter.ts: chunks of an OpenAI-compatible
-- stream become Anthropic events.
pub mod Events
pub mod Blocks
pub mod Adapter
pub mod Grammar
pub mod Protocol
pub mod Chunks
pub mod Order
pub mod Speech
pub mod Content
pub mod Report
pub mod Tests
