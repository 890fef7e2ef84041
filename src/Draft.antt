-- ===== src/Draft.antt =====
-- The prototypes in draft/: structs that are sent in one block of memory, the echo server, and
-- the datagram client and server.
pub mod Structs
pub mod Compress
pub mod Conversation
pub mod Datagram
pub mod EchoClient
pub mod EchoServer
pub mod Wire
pub mod HexText
pub mod Load
pub mod RoundTrip
pub mod Sample
pub mod Sent
