-- ===== src/Examples.antt =====
-- The theorems at concrete states of the kernel.
pub mod Journal
pub mod Processes
pub mod Memory
pub mod Storage
pub mod Programs
pub mod Files
pub mod Spaces
pub mod Devices
pub mod Commands
pub mod Lines
pub mod Times
