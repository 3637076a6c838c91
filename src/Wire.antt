-- ===== src/Wire.antt =====
-- The wire format: bytes, cursors, and the structures of include/struct_def.h.
pub mod Bytes
pub mod Codec
pub mod Member
pub mod Account
pub mod Query
pub mod GroupRequest
pub mod Ack
pub mod Package
pub mod MsgInfo
pub mod MsgList
pub mod MsgListRestore
mod Tests
