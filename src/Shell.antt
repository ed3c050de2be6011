-- ===== src/Shell.antt =====
-- Praktikum 2 Aufg 1/main.c: the HAW shell.
pub mod Text
pub mod Trim
pub mod Process
pub mod Commands
mod Tests
