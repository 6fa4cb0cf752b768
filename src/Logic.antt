-- ===== src/Logic.antt =====
-- The layered server, example/logicServer.
pub mod Reader
pub mod Sender
pub mod System
pub mod Pool
pub mod Server
pub mod Service
pub mod Singleton
pub mod Client
pub mod Roundtrip
pub mod Exchange
pub mod Traffic
