-- ===== src/Session.antt =====
-- host-agent/internal/session: the requests of viewers, and the sessions that they become.
pub mod Inbox
pub mod InputGate
pub mod Approver
pub mod Lifecycle
pub mod Screen
mod Examples
mod ScreenExamples
mod PolicyExamples
mod InputExamples
