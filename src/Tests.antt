-- ===== src/Tests.antt =====
-- The theorems on concrete inputs: a kernel that is played by a short script, and the data.
mod World
mod Wires
mod Server
mod Queues
mod Rest
mod Delivery
mod Exchange
mod Stops
mod Drafts
mod Program
