-- ===== src/Daemon.antt =====
-- user/daemon: the server between the clients' sockets and the device.
pub mod Words
pub mod Key
pub mod Auth
pub mod Operation
pub mod Files
pub mod Command
pub mod Protocol
pub mod Session
pub mod Connections
pub mod Main
