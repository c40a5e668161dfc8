-- ===== src/Device.antt =====
-- kernel/kvlkm.c: the character device over the hash table.
pub mod Handlers
pub mod Ioctl
pub mod Spec
pub mod Meets
pub mod Refine
pub mod Values
pub mod RoundTrip
pub mod Snapshot
pub mod Interleave
pub mod Walk
pub mod Locked
pub mod Module
pub mod Loading
