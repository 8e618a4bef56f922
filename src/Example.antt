-- ===== src/Example.antt =====
-- Instances of the crates, small enough to run, and the theorems applied at concrete values.
pub mod Wire
pub mod Kit
pub mod Sample
mod Frames
mod Numbers
mod Bodies
mod Replies
mod Requests
mod Links
mod Lines
mod Commands
mod CommandLines
mod Dumps
