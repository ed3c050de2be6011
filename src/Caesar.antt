-- ===== src/Caesar.antt =====
-- Praktikum_4/caesar.c: the kernel module with the devices /dev/encrypt and /dev/decrypt.
pub mod Cipher
pub mod Alphabet
pub mod Roundtrip
pub mod Rounds
pub mod Buffer
pub mod Kernel
pub mod Device
pub mod Sessions
pub mod Exclusion
pub mod Transfer
pub mod Registration
pub mod Balance
pub mod Syscalls
pub mod Trial
pub mod Calls
pub mod Printed
mod Sample
mod Tests
