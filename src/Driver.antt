-- ===== src/Driver.antt =====
-- The kernel drivers of mydev/. What the kernel answers to a driver (whether a call succeeds, what
-- a bus or user memory gives) is an argument.
pub mod Timer
pub mod Chardev
pub mod Fan
pub mod Motor
pub mod Led
pub mod Light
pub mod Climate
