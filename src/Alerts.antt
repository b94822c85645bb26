-- ===== src/Alerts.antt =====
-- internal/alerts/alerts.go: the alerts of a run queued for its channels, and the bounded notes of those that
-- were shed.
pub mod Drops
pub mod Newest
pub mod Notify
pub mod Account
pub mod Deliveries
pub mod Park
pub mod Parked
