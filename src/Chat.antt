-- ===== src/Chat.antt =====
-- The chat service, src/chat/chat.service.ts.
pub mod Messages
pub mod Merging
pub mod Outbound
pub mod Limits
pub mod Tokens
pub mod Tee
pub mod Tap
pub mod Record
pub mod Service
pub mod Balance
pub mod Accounting
pub mod Passage
pub mod History
pub mod Guards
pub mod Charges
pub mod Ceiling
pub mod GatewayTests
pub mod Tests
