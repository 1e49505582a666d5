-- ===== src/Dial.antt =====
-- src/autoconnect.rs: the outbound connection.
pub mod Url
pub mod State
pub mod Pin
pub mod Task
