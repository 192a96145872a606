-- ===== src/Outbox.antt =====
-- The transactional outbox (internal/outbox/worker.go, import_gate.go): events that commands wrote
-- are leased by a worker, delivered over HTTP and marked delivered, retried or dead.
pub mod Rows
pub mod Store
pub mod Retry
pub mod Gate
pub mod Worker
pub mod WriteBack
pub mod Delivery
pub mod Lifecycle
pub mod Lease
pub mod Selection
pub mod Acquire
pub mod Released
pub mod Withheld
mod Tests
