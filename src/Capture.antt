-- ===== src/Capture.antt =====
-- host-agent/internal/capture/pipeline.go and capture.go: the clock that grabs the screen, the
-- mailbox of one job between it and the encoder, and what the encoder makes of the jobs.
pub mod Loop
pub mod Mailbox
pub mod Encode
pub mod World
