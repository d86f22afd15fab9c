-- ===== src/Service.antt =====
-- src/server/chatservice.cc and chatserver.cc: the handlers of the chat server.
pub mod World
pub mod Effects
pub mod Session
pub mod Chat
pub mod Social
pub mod Dispatch
pub mod Observer
pub mod Run
pub mod Invariant
pub mod Mailbox
