-- ===== src/Tests.antt =====
-- The theorems at concrete inputs, and runs of the code.
mod Bench
mod Frames
mod Port
mod Settings
mod Names
mod Dial
mod Web
mod Restart
mod Shared
