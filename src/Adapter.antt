-- ===== src/Adapter.antt =====
-- internal/adapter/claude_parser.go: what an agent prints, as signals.
pub mod Parser
pub mod Recognize
pub mod Buffer
pub mod Chunks
pub mod Pump
mod Tests
