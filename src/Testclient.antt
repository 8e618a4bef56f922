-- ===== src/Testclient.antt =====
-- testclient/src: the command line client, without its calls of the network.
pub mod Parse
pub mod Read
pub mod Prepare
pub mod Output
pub mod Commands
pub mod Ranges
pub mod Requests
pub mod Accepts
pub mod CommandLine
pub mod Arrival
pub mod Writing
pub mod Names
pub mod Asked
pub mod Replies
