-- ===== src/Workers.antt =====
-- Praktikum 3: the producer and the consumer threads, which share a counter and its mutex.
pub mod Loop
pub mod Shifts
pub mod Program
pub mod Crew
pub mod Joining
pub mod Whole
pub mod Waiting
pub mod Finish
mod Tests
