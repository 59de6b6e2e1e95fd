-- ===== src/Scans.antt =====
-- workflows/scans: what a client does with a scan.
pub mod Inspector
pub mod Invoker
pub mod Waiter
pub mod Compare
mod Examples
