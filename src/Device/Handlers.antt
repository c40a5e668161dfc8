-- ===== src/Device/Handlers.antt =====
-- kernel/kvlkm.c: the handlers of one message. Each returns its code, the message as it leaves it,
-- and the new state.
use kvstore_lkm.Prelude.{
  ℕ, Bool, not, Option, none, some, List, ◌++◌, if◌then◌else◌, ℤ, pos, is_neg, codes,
}
use kvstore_lkm.Text.{put_text, decimal}
use kvstore_lkm.Message.{KvMessage, KvSnapshotMessage, max_value_len, zero_value, success, error}
use kvstore_lkm.Hash.Table.{Hashing, kv_store, Kernel}
use kvstore_lkm.Hash.Ops.{kv_hash_add, kv_hash_remove, kv_hash_lookup, kv_hash_snapshot}

-- What the rest of the kernel does during one call: whether `copy_from_user` and `copy_to_user`
-- succeed, and the allocations of a string, of a node and of a snapshot; the memory behind the
-- message on the stack; and what a fresh snapshot holds before it is written.
pub record Env : Type 0 where
  pub copy_in : Bool
  pub copy_out : Bool
  pub dup_ok : Bool
  pub node_ok : Bool
  pub snapshot_ok : Bool
  pub beyond : List ℕ
  pub garbage : KvMessage

-- `snprintf(msg->value, MAX_VALUE_LEN, …)`
unfoldable pub put_value : KvMessage → List ℕ → KvMessage
unfolding put_text
put_value msg text = record msg { value = put_text msg.value max_value_len text }

module _ ⦃hashing : Hashing⦄ where
  -- The copy into `input_value` is never read; what is stored starts at `msg->value`.
  unfoldable pub handle_insert : Env → KvMessage → Kernel → ℤ × KvMessage × Kernel
  unfolding put_value
  handle_insert env msg k =
      let (ret, existing, k₁) = kv_hash_lookup kv_store msg.key (some zero_value) max_value_len k in
      if not (is_neg ret)
      then (
        pos 0,
        put_value (record msg { status = pos 1 }) (codes "Key exists. Use update.\n"),
        k₁,
      )
      else let (ret', k₂) =
          kv_hash_add kv_store msg.key (some (msg.value ++ env.beyond)) env.dup_ok env.node_ok k₁ in
        if is_neg ret'
        then (pos 0, put_value (record msg { status = ret' }) (codes "Insert failed.\n"), k₂)
        else (pos 0, record msg { status = pos 0 }, k₂)

  unfoldable pub handle_delete : KvMessage → Kernel → ℤ × KvMessage × Kernel
  unfolding put_value
  handle_delete msg k =
      let (ret, k₁) = kv_hash_remove kv_store msg.key k in
      if is_neg ret
      then (pos 0, put_value (record msg { status = pos 1 }) (codes "Failed to delete key.\n"), k₁)
      else (pos 0, record msg { status = pos 0 }, k₁)

  -- What `kv_hash_lookup` left in `msg->value`; its answer is never NULL here.
  abbrev looked_up : KvMessage → Option (List ℕ) → KvMessage
  looked_up msg none = msg
  looked_up msg (some out) = record msg { value = out }

  unfoldable pub handle_get : KvMessage → Kernel → ℤ × KvMessage × Kernel
  unfolding put_value decimal
  handle_get msg k =
      let (ret, out, k₁) = kv_hash_lookup kv_store msg.key (some zero_value) max_value_len k in
      let msg' = looked_up (record msg { status = pos 1; value = zero_value }) out in
      if is_neg ret
      then (
        pos 0,
        put_value msg' (codes "Key '" ++ decimal msg.key ++ codes "' does not exist"),
        k₁,
      )
      else (pos 0, record msg' { status = pos 0 }, k₁)

  -- `tmp` is not initialised and never read.
  unfoldable pub handle_update : Env → KvMessage → Kernel → ℤ × KvMessage × Kernel
  unfolding put_value decimal
  handle_update env msg k =
      let (ret, tmp, k₁) = kv_hash_lookup kv_store msg.key (some zero_value) max_value_len k in
      if is_neg ret
      then (
        pos 0,
        put_value (record msg { status = pos 1 })
            (codes "Cannot update non-existent key: " ++ decimal msg.key ++ codes "\n"),
        k₁,
      )
      else let (ret', k₂) =
          kv_hash_add kv_store msg.key (some (msg.value ++ env.beyond)) env.dup_ok env.node_ok k₁ in
        if is_neg ret'
        then (pos 0, put_value (record msg { status = ret' }) (codes "Update failed.\n"), k₂)
        else (pos 0, record msg { status = pos 0 }, k₂)

  -- What `kv_hash_snapshot` left in the message: its array, and `count`.
  abbrev filled : KvSnapshotMessage → Option (List KvMessage) → Option ℕ → KvSnapshotMessage
  filled msg none n = msg
  filled msg (some entries) none = record msg { entries = entries }
  filled msg (some entries) (some n) = record msg { entries = entries; count = n }

  unfoldable pub handle_snapshot : KvSnapshotMessage → Kernel → ℤ × KvSnapshotMessage × Kernel
  handle_snapshot msg k =
      let (ret, entries, n, k₁) =
        kv_hash_snapshot kv_store (some msg.entries) msg.capacity (some 0) k in
      let msg' = filled msg entries n in
      if is_neg ret
      then (ret, record msg' { status = pos error; count = 0 }, k₁)
      else (pos 0, record msg' { status = pos success }, k₁)
