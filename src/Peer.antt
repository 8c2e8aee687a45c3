-- ===== src/Peer.antt =====
-- peer/: the peer wire protocol (protocol.go) and what the manager does with its messages (manager.go).
pub mod Wire
pub mod Id
pub mod Ids
pub mod Message
pub mod Receive
pub mod Framing
pub mod Delivery
pub mod Sending
pub mod Misframed
pub mod Handshake
pub mod Greeting
pub mod Manager
