-- ===== src/Examples.antt =====
-- Runs at concrete inputs.
mod Queue
mod Service
mod Settings
mod Import
mod Alarms
mod Workers
mod Api
mod Schedule
mod Definitions
mod Writer
mod Disk
