-- ===== src/HostProtocol.antt =====
-- packages/server/src/pty/host-protocol/frames.ts: the frames between server and PTY daemon.
pub mod Frame
pub mod Parser
pub mod Stream
mod Tests
