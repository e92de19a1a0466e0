-- ===== src/Lumera.antt =====
-- internal/lumera: the client of the chain's REST API.
pub mod Coin
pub mod Transfer
pub mod Tx
pub mod Listings
