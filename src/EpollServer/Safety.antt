-- ===== src/EpollServer/Safety.antt =====
-- Properties of the state that hold through the event loop, part by part.
pub mod Rules
pub mod Registry
pub mod Accept
pub mod Read
pub mod Write
pub mod Service
pub mod Sockets
pub mod Order
