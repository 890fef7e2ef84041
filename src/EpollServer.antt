-- ===== src/EpollServer.antt =====
-- ProtocalServerEpoll.h and ProtocalServerEpoll.cpp: the state and the operations of the epoll
-- server in the first children, and its properties in Answers, Safety and Total.
pub mod State
pub mod Registry
pub mod Accept
pub mod Read
pub mod Write
pub mod Service
pub mod Setup
pub mod Teardown
pub mod Answers
pub mod Delivery
pub mod Exchange
pub mod Reuse
pub mod Lifetime
pub mod Safety
pub mod Total
