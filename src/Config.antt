-- ===== src/Config.antt =====
-- internal/config/config.go: the daemon's settings and its definitions, filled and validated.
pub mod Values
pub mod Definition
pub mod Fill
pub mod Check
pub mod Validate
pub mod Rules
pub mod RoundTrip
pub mod Settings
pub mod Load
pub mod Valid
pub mod Layers
pub mod Limits
pub mod Sections
pub mod Loaded
