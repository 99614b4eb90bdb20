-- ===== src/Net.antt =====
-- net/: connections, the tables that hold them, and the threads that serve them.
pub mod Connector
pub mod ConnectorList
pub mod Commands
pub mod NetThread
pub mod HandleThread
pub mod EpollServer
pub mod Callbacks
