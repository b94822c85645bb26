-- ===== src/Crontab.antt =====
-- cmd/minicrond/crontab.go: a user's crontab read into jobs, and its entries commented out.
pub mod Text
pub mod Parse
pub mod Split
pub mod Comments
pub mod Again
pub mod Import
