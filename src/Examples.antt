-- ===== src/Examples.antt =====
-- Concrete states and runs of the kernel.
pub mod State
pub mod Pools
pub mod Lists
pub mod Queues
pub mod Processes
pub mod Waits
pub mod Kernel
pub mod Descriptors
pub mod Printing
