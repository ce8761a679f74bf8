-- ===== src/Ipc.antt =====
-- kernel/common/ipc.c: ports, messages and port sets.
pub mod State
pub mod Queue
pub mod Port
pub mod Send
pub mod Receive
pub mod Set
pub mod Refs
pub mod Pending
pub mod Delivery
pub mod Delivered
pub mod Members
pub mod Exhausted
