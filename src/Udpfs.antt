-- ===== src/Udpfs.antt =====
-- udpfs_server/udpfs_server.py: the file and block server over UDPRDMA.
pub mod Wire
pub mod Link
pub mod Session
pub mod Writes
pub mod Requests
mod Examples
