-- ===== src/Handlers.antt =====
-- internal/handlers: what the HTTP API answers. A handler is a function from the query and the
-- database to a reply.
pub mod Reply
pub mod Actions
pub mod Supernodes
pub mod Version
pub mod Stats
pub mod Health
