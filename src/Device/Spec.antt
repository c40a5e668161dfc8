-- ===== src/Device/Spec.antt =====
-- What the device of kernel/kvlkm.c answers, with the table as a function from keys to values. The
-- answer to an operation that fails is in the status and the value of the message: the code is 0,
-- although the comments on `_handle_insert` and `_handle_delete` speak of a negative one.
use kvstore_lkm.Prelude.{
  ℕ, Option, none, some, List, [], ◌∷◌, ◌++◌, if◌then◌else◌, ltb, pos, neg, codes, length,
}
use kvstore_lkm.Text.{c_string, overwrite, decimal}
use kvstore_lkm.Message.{
  Cmd, kv_insert, kv_delete, kv_get, kv_update, KvMessage, max_value_len, zero_value,
}
use kvstore_lkm.Hash.Table.{enomem}
use kvstore_lkm.Hash.View.{Contents, update}
use kvstore_lkm.Hash.Add.{add_succeeds}
use kvstore_lkm.Device.Handlers.{Env, put_value}

-- A value that fits a message with its NUL. A longer one is answered as if the key were absent.
abbrev pub seen : Option (List ℕ) → Option (List ℕ)
seen none = none
seen (some v) = if ltb (length v) max_value_len then some v else none

-- A write of the message's string, if memory allows.
abbrev pub spec_write : Env → KvMessage → List ℕ → Contents → KvMessage × Contents
spec_write env msg failure f =
    if add_succeeds env.dup_ok env.node_ok (f msg.key)
    then (
      record msg { status = pos 0 },
      update f msg.key (some (c_string (msg.value ++ env.beyond))),
    )
    else (put_value (record msg { status = neg enomem }) failure, f)

abbrev pub refused : KvMessage → List ℕ → KvMessage
refused msg text = put_value (record msg { status = pos 1 }) text

abbrev pub spec_insert : Env → KvMessage → Contents → KvMessage × Contents
spec_insert env msg f = elim (seen (f msg.key)) [
  | some v ↦ (refused msg (codes "Key exists. Use update.\n"), f)
  | none ↦ spec_write env msg (codes "Insert failed.\n") f
]

abbrev pub spec_update : Env → KvMessage → Contents → KvMessage × Contents
spec_update env msg f = elim (seen (f msg.key)) [
  | some v ↦ spec_write env msg (codes "Update failed.\n") f
  | none ↦
      (refused msg (codes "Cannot update non-existent key: " ++ decimal msg.key ++ codes "\n"), f)
]

abbrev pub spec_get : KvMessage → Contents → KvMessage × Contents
spec_get msg f = elim (seen (f msg.key)) [
  | some v ↦ (record msg { status = pos 0; value = overwrite (v ++ 0 ∷ []) zero_value }, f)
  | none ↦ (
    refused (record msg { value = zero_value })
        (codes "Key '" ++ decimal msg.key ++ codes "' does not exist"),
    f,
  )
]

abbrev pub spec_delete : KvMessage → Contents → KvMessage × Contents
spec_delete msg f = elim (f msg.key) [
  | some v ↦ (record msg { status = pos 0 }, update f msg.key none)
  | none ↦ (refused msg (codes "Failed to delete key.\n"), f)
]

abbrev pub spec_operation : Env → Cmd → KvMessage → Contents → Option (KvMessage × Contents)
spec_operation env kv_insert msg f = some (spec_insert env msg f)
spec_operation env kv_update msg f = some (spec_update env msg f)
spec_operation env kv_get msg f = some (spec_get msg f)
spec_operation env kv_delete msg f = some (spec_delete msg f)
spec_operation env _ msg f = none
