-- ===== src/Background.antt =====
-- internal/background: the loops that fill the database.
pub mod Enricher
pub mod Heights
pub mod Hosts
pub mod Trigger
pub mod Feed
pub mod Sync
pub mod Probe
pub mod System
pub mod Loops
