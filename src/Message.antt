-- ===== src/Message.antt =====
-- src/binderd/message.h, message.cpp: the messages that clients and server exchange, and their
-- form on the wire.
mod Types
pub mod Wire
pub mod RoundTrip
unfoldable pub use Types.*
