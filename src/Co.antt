-- ===== src/Co.antt =====
-- example/BoostCoServer: the TCP server of example/logicServer again, whose sessions read in a
-- coroutine. The nodes of a message are those of Wire, which are cleared; those of this server are not,
-- and are in Memory.
pub mod Sender
pub mod Reader
pub mod System
pub mod Pool
pub mod Server
pub mod Exchange
pub mod Memory
