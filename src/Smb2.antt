-- ===== src/Smb2.antt =====
-- smb2_server/: the paths and the wire format of the SMB2 server.
pub mod Paths
pub mod Statuses
pub mod Wire
pub mod Entries
pub mod State
pub mod Create
pub mod Files
pub mod Listing
pub mod Info
pub mod Trees
pub mod Ioctl
pub mod Credits
pub mod Dispatch
pub mod Compound
pub mod Lawful
mod Examples
