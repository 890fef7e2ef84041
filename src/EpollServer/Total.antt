-- ===== src/EpollServer/Total.antt =====
-- The fuel of the loops in initService.
pub mod Rules
pub mod Read
pub mod Write
pub mod Accept
pub mod Service
pub mod Loop
pub mod Stops
