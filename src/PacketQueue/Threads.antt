-- ===== src/PacketQueue/Threads.antt =====
-- Praktikum 3/queue.c with several threads in it: each runs from one pthread_mutex_lock to the next
-- while the others stand still.
pub mod Blocks
pub mod Alone
pub mod Follows
pub mod Gap
pub mod Measure
pub mod Place
pub mod Links
pub mod Put
pub mod Between
pub mod Behind
pub mod Onward
pub mod Enter
pub mod Take
pub mod Step
pub mod Next
pub mod Goes
pub mod Inv
pub mod Keep
pub mod Linear
pub mod Progress
pub mod Others
pub mod Ends
pub mod Together
pub mod Schedule
pub mod Single
mod Tests
