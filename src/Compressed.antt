-- ===== src/Compressed.antt =====
-- The compressed images of udpfs_server/compressed_iso/: the files, their headers and blocks, and
-- the reader that serves and inspects them.
pub mod Reader
pub mod Files
pub mod Index
pub mod Blocks
pub mod Cso
pub mod Zso
pub mod Inspect
pub mod Serve
pub mod Cuebin
pub mod Chd
mod Examples
