-- ===== src/Daemon.antt =====
-- packages/daemon: the per-workspace daemon that keeps navigation state warm.
pub mod Failures
pub mod Admission
pub mod Request
pub mod Ledger
pub mod Queue
pub mod Transfer
pub mod Policy
pub mod Supervisor
pub mod Lifetime
pub mod Routing
pub mod Wire
