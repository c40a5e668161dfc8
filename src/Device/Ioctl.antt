-- ===== src/Device/Ioctl.antt =====
-- kernel/kvlkm.c: the entry point of the device and the copies from and to the caller's memory.
use kvstore_lkm.Prelude.{
  ℕ, not, Option, none, some, ◌++◌, if◌then◌else◌, ℤ, pos, neg, is_neg, to_unsigned, replicate,
  take, drop, ◌==◌,
}
use kvstore_lkm.Message.{
  Cmd, kv_insert, kv_delete, kv_get, kv_update, kv_snapshot, kv_count, other, KvMessage,
  KvSnapshotMessage,
}
use kvstore_lkm.Hash.Table.{Hashing, kv_store, Kernel, einval, enomem, kmalloc, kfree}
use kvstore_lkm.Hash.Ops.{kv_hash_count}
use kvstore_lkm.Device.Handlers.{
  Env, handle_insert, handle_delete, handle_get, handle_update, handle_snapshot,
}

abbrev pub efault : ℕ
efault = 14

-- The caller's memory that `arg` points to, in each of the three layouts that a command gives it.
pub record UserMemory : Type 0 where
  pub message : KvMessage
  pub snapshot : KvSnapshotMessage
  pub counter : ℕ

-- `copy_to_user` of the header and of `count` messages over the caller's.
abbrev pub copied_out : KvSnapshotMessage → KvSnapshotMessage → KvSnapshotMessage
copied_out msg arg = record msg {
  entries = take msg.count msg.entries ++ drop msg.count arg.entries;
}

-- The fresh block `snapshot_msg`, for `n` messages.
abbrev pub fresh : Env → ℕ → KvSnapshotMessage
fresh env n = record {
  status = env.garbage.status;
  capacity = n;
  count = env.garbage.key;
  entries = replicate n env.garbage;
}

module _ ⦃hashing : Hashing⦄ where
  -- The `switch`; `none` is its default.
  unfoldable pub handle_operation : Env → Cmd → KvMessage → Kernel → Option (ℤ × KvMessage × Kernel)
  handle_operation env kv_insert msg k = some (handle_insert env msg k)
  handle_operation env kv_update msg k = some (handle_update env msg k)
  handle_operation env kv_get msg k = some (handle_get msg k)
  handle_operation env kv_delete msg k = some (handle_delete msg k)
  handle_operation env kv_snapshot msg k = none
  handle_operation env kv_count msg k = none
  handle_operation env (other n) msg k = none

  -- A copy that fails leaves the caller's message as it was; what the handler did stays done.
  unfoldable pub handle_kv_message : Env → Cmd → KvMessage → Kernel → ℤ × KvMessage × Kernel
  unfolding handle_operation
  handle_kv_message env cmd arg k =
      if not env.copy_in then (neg efault, arg, k) else elim (handle_operation env cmd arg k) [
        | none ↦ (neg einval, arg, k)
        | some (ret, msg, k') ↦
            if is_neg ret
            then (ret, arg, k')
            else if not env.copy_out
            then (neg efault, arg, k')
            else (ret, msg, k')
      ]

  unfoldable pub handle_kv_count : Env → ℕ → Kernel → ℤ × ℕ × Kernel
  handle_kv_count env arg k =
      let (count, k') = kv_hash_count kv_store k in
      if is_neg count
      then (count, arg, k')
      else if not env.copy_out
      then (neg efault, arg, k')
      else (pos 0, to_unsigned count, k')

  -- Fill the fresh block, copy it out and free it.
  unfoldable pub send_allocated :
      Env → ℕ → KvSnapshotMessage → Kernel → ℤ × KvSnapshotMessage × Kernel
  send_allocated env n arg k₁ =
      let (ret, msg, k₂) = handle_snapshot (fresh env n) k₁ in
      if is_neg ret
      then (ret, arg, kfree k₂)
      else if not env.copy_out
      then (neg efault, arg, kfree k₂)
      else (ret, copied_out msg arg, kfree k₂)

  -- With the capacity that the caller named equal to the count.
  unfoldable pub send_snapshot :
      Env → ℤ → KvSnapshotMessage → Kernel → ℤ × KvSnapshotMessage × Kernel
  send_snapshot env actual_count arg k =
      let k₁ = kmalloc env.snapshot_ok k in
      if not env.snapshot_ok
      then (neg enomem, arg, k₁)
      else send_allocated env (to_unsigned actual_count) arg k₁

  -- A capacity that is not the count is answered by the count, a code that is not negative.
  unfoldable pub handle_kv_snapshot :
      Env → KvSnapshotMessage → Kernel → ℤ × KvSnapshotMessage × Kernel
  handle_kv_snapshot env arg k =
      if not env.copy_in
      then (neg efault, arg, k)
      else let (actual_count, k₁) = kv_hash_count kv_store k in
        if not (to_unsigned actual_count == arg.capacity)
        then (actual_count, arg, k₁)
        else send_snapshot env actual_count arg k₁

  unfoldable pub kv_ioctl : Env → Cmd → UserMemory → Kernel → ℤ × UserMemory × Kernel
  unfolding handle_kv_message handle_kv_count handle_kv_snapshot
  kv_ioctl env kv_snapshot arg k =
      let (ret, s, k') = handle_kv_snapshot env arg.snapshot k in
      (ret, record arg { snapshot = s }, k')
  kv_ioctl env kv_count arg k =
      let (ret, n, k') = handle_kv_count env arg.counter k in (ret, record arg { counter = n }, k')
  kv_ioctl env cmd arg k =
      let (ret, m, k') = handle_kv_message env cmd arg.message k in
      (ret, record arg { message = m }, k')
