-- ===== src/Uptime.antt =====
-- uptime_aggregate_summaries.go and uptime_cache.go: what the status page computes and keeps.
pub mod Summaries
pub mod Cache
