-- ===== src/NetServer.antt =====
-- `CNetServer` (LoginServer_Chat/CNetServer.cpp): the parts of the network library.
pub mod Framing
pub mod Receive
pub mod Session
pub mod Sending
pub mod Worker
pub mod Slot
pub mod Start
