-- ===== src/Server.antt =====
-- internal/server: the router and the functions around it.
pub mod Mux
pub mod Router
pub mod Cors
pub mod Stack
