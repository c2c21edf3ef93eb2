-- ===== src/Transform.antt =====
-- transformer/: the conversion of requests, answers and streams between the protocols.
mod Tests
pub mod Context
pub mod Common
pub mod Reasoning
pub mod ToolCalls
pub mod Formats
pub mod Events
pub mod OpenAiStream
pub mod ResponsesStream
