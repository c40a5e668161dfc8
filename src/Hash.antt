-- ===== src/Hash.antt =====
-- kernel/kv_hash.c and kernel/kv_hash.h: the chained hash table behind the device.
pub mod Chain
pub mod Table
pub mod Ops
pub mod View
pub mod Add
pub mod Remove
pub mod Lookup
pub mod Count
pub mod Snapshot
pub mod Lifecycle
pub mod Locks
pub mod Export
