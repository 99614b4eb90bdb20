-- ===== src/Game.antt =====
-- example/gameserver/: the rooms of the game server.
pub mod Room
pub mod Parse
pub mod Maps
pub mod World
pub mod Addresses
pub mod Fields
pub mod Server
