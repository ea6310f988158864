-- ===== src/Ingester.antt =====
-- worker_ingester.go: the worker that stores submissions and aggregates them by day.
pub mod Queue
pub mod Tables
pub mod Aggregate
pub mod Worker
pub mod Interleaving
pub mod Verdict
pub mod Bounds
