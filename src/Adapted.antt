-- ===== src/Adapted.antt =====
-- src/adapted/: the refined messages, and the results that they hold.
pub mod Keeps
pub mod Writes
pub mod Event
pub mod Stream
pub mod All
pub mod Convert
