-- ===== src/Tests.antt =====
-- The theorems at concrete inputs, part by part.
mod Toy
mod Streams
mod KeyExchange
mod Server
mod Terminal
mod Tasks
mod Client
mod Transfer
mod Sessions
mod Screen
mod Approver
mod Commands
mod EndToEnd
mod Encrypted
mod Tunnel
mod Shared
mod Console
