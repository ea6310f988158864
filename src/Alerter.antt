-- ===== src/Alerter.antt =====
-- What happens to a queued alert: its delivery, and the buffer in front of ntfy.
pub mod Delivery
pub mod Ntfy
pub mod Presentation
pub mod Build
pub mod Request
