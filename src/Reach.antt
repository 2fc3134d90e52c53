-- ===== src/Reach.antt =====
-- The states that the kernel reaches.
pub mod Within
pub mod WriteWithin
pub mod ReadWithin
pub mod Sound
pub mod Unseen
pub mod Opens
pub mod Creates
pub mod Destroys
pub mod Forks
pub mod Resources
pub mod Steps
pub mod Safe
pub mod Bounds
