-- ===== src/Comm.antt =====
-- comm/util.hpp: the tools that both servers share.
pub mod Int
pub mod Numbers
pub mod Paths
pub mod Cookie
pub mod Files
pub mod Hex
pub mod Streams
pub mod HostStatus
pub mod Clock
pub mod Log
