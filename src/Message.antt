-- ===== src/Message.antt =====
-- include/kv_ioctl.h: the messages that cross the device, and their limits and status codes.
use kvstore_lkm.Prelude.{ℕ, ℤ, List, replicate}

-- The numbers that `_IOW`, `_IOWR` and `_IOR` build are told apart, and not computed.
pub data Cmd : Type 0 where
  kv_insert kv_delete kv_get kv_update kv_snapshot kv_count : Cmd
  other : ℕ → Cmd

abbrev pub success : ℕ
success = 0

abbrev pub error : ℕ
error = 1

abbrev pub max_value_len : ℕ
max_value_len = 64

-- `value` is an array of `max_value_len` bytes.
pub record KvMessage : Type 0 where
  pub status : ℤ
  pub key : ℕ
  pub value : List ℕ

-- `entries` is a flexible array: as many messages as the caller made room for.
pub record KvSnapshotMessage : Type 0 where
  pub status : ℤ
  pub capacity : ℕ
  pub count : ℕ
  pub entries : List KvMessage

-- An array of 64 zero bytes.
abbrev pub zero_value : List ℕ
zero_value = replicate 64 0
