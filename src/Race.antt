-- ===== src/Race.antt =====
-- Praktikum 2 Aufg 2/main.c: the pod race, its threads and its ranking.
pub mod Sort
pub mod Bubble
pub mod Order
pub mod Ranking
pub mod Flight
pub mod Outcome
pub mod Ending
pub mod Main
mod Tests
