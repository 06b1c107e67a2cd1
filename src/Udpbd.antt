-- ===== src/Udpbd.antt =====
-- udpbd_server/udpbd_server.py: the block device server.
pub mod Wire
pub mod Blocks
pub mod Device
pub mod Server
mod Examples
