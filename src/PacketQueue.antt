-- ===== src/PacketQueue.antt =====
-- Praktikum 3: the packet queue of queue.c and the threads that use it.
pub mod Store
pub mod Operations
pub mod Cells
pub mod Get
pub mod Walk
pub mod Place
pub mod Reject
pub mod Insert
pub mod Add
pub mod Full
pub mod Ordered
pub mod Bounded
pub mod Duplicate
pub mod Elements
pub mod Consume
pub mod Produce
pub mod Observer
pub mod Stolen
pub mod Waits
pub mod Index
pub mod Drift
pub mod Watch
pub mod Dangling
pub mod Threads
mod Sample
mod Crowd
mod Tests
