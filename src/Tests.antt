-- ===== src/Tests.antt =====
-- Tests of the definitions, and each theorem at a concrete input.
pub mod Maps
mod Clients
mod Deposits
mod Loops
mod Messages
mod Registrations
mod Queues
mod Registry
mod Replies
mod Server
mod Sockets
mod Texts
