-- ===== src/Processor.antt =====
-- worker_processor.go: the worker that turns stored submissions into incidents and alerts.
pub mod Times
pub mod Buckets
pub mod Evaluate
pub mod Latest
pub mod Analyze
pub mod Db
pub mod Incidents
pub mod Sync
pub mod Handle
