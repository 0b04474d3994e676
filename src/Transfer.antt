-- ===== src/Transfer.antt =====
-- host-agent/internal/transfer: the file channel of a session.
pub mod Name
pub mod Message
pub mod Paths
pub mod Space
pub mod Dest
pub mod State
pub mod Receive
pub mod Chunk
pub mod Outbound
pub mod Steps
pub mod Stream
mod Tests
mod Examples
mod FileExamples
