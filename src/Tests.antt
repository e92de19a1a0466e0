-- ===== src/Tests.antt =====
-- Concrete inputs for the theorems, a module per component.
mod Collation
mod Lumera
mod Db
mod Sync
mod Enricher
mod Runner
mod Handlers
mod Probe
mod Stats
mod Server
mod System
mod Requests
mod Loops
