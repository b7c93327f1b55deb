-- ===== src/Runner.antt =====
-- Runner, runtime/runner.go: the host's side of a conversation with a plugin.
pub mod Scope
pub mod Payloads
pub mod Host
pub mod Auth
pub mod Requests
pub mod Frames
pub mod IndexDatasource
pub mod Endpoints
pub mod Buffers
pub mod Enrichment
pub mod Commands
pub mod Invoke
