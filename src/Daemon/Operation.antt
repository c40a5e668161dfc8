-- ===== src/Daemon/Operation.antt =====
-- `do_kv_operation` of user/daemon/daemon.cpp: one call of the device, and the answer to the client.
pub mod Outgoing
use kvstore_lkm.Prelude.{
  ℕ, ◌-◌, none, some, List, [], ◌∷◌, ◌++◌, if◌then◌else◌, ℤ, pos, negsuc, suc, is_neg, eq_nat,
  codes,
}
use kvstore_lkm.Text.{c_string, strncpy, decimal}
use kvstore_lkm.Message.{
  Cmd, kv_insert, kv_delete, kv_get, kv_update, KvMessage, KvSnapshotMessage, max_value_len,
  zero_value,
}
use kvstore_lkm.Hash.Table.{Hashing, Kernel}
use kvstore_lkm.Device.Handlers.{Env}
use kvstore_lkm.Device.Ioctl.{kv_ioctl}
use kvstore_lkm.Daemon.Key.{parse_key}

-- `std::to_string` of an `int`.
unfoldable pub signed_decimal : ℤ → List ℕ
unfolding decimal
signed_decimal (pos n) = decimal n
signed_decimal (negsuc n) = b'-' ∷ decimal (suc n)

-- `→` in UTF-8, with its spaces.
abbrev pub arrow : List ℕ
arrow = 32 ∷ 0xe2 ∷ 0x86 ∷ 0x92 ∷ 32 ∷ []

-- `"…"`
abbrev pub quoted : List ℕ → List ℕ
quoted s = b'"' ∷ s ++ b'"' ∷ []

abbrev no_entries : KvSnapshotMessage
no_entries = record { status = pos 0; capacity = 0; count = 0; entries = [] }

-- The message that goes to the device: zero bytes, the key, and at most 63 bytes of the value.
unfoldable pub outgoing : ℕ → List ℕ → KvMessage
unfolding strncpy
outgoing key [] = record { status = pos 0; key = key; value = zero_value }
outgoing key (c ∷ value) = record {
  status = pos 0;
  key = key;
  value = strncpy zero_value (c ∷ value) (max_value_len - 1);
}

-- `NAME("key")`
abbrev pub call_of : List ℕ → List ℕ → List ℕ
call_of name key_str = name ++ codes "(" ++ quoted key_str ++ codes ")"

abbrev failed_with : KvMessage → List ℕ → List ℕ
failed_with msg text = text ++ signed_decimal msg.status ++ codes ")\n"

-- The `switch` on the command; `number` is what the macro of a command expands to.
unfoldable pub response_to : (Cmd → ℕ) → Cmd → KvMessage → List ℕ
unfolding signed_decimal decimal c_string
response_to number kv_get msg =
    let call = call_of (codes "GET") (decimal msg.key) in
    if eq_nat msg.status 0
    then call ++ arrow ++ quoted (c_string msg.value) ++ codes "\n"
    else call ++ codes " failed: key does not exist\n"
response_to number kv_insert msg =
    let call = call_of (codes "INSERT") (decimal msg.key) in
    if eq_nat msg.status 0
    then call ++ codes " succeeded\n"
    else if eq_nat msg.status 1
    then call ++ codes " failed, key already exists, use update\n"
    else call ++ failed_with msg (codes " failed (status=")
response_to number kv_update msg =
    let call = call_of (codes "UPDATE") (decimal msg.key) in
    if eq_nat msg.status 0
    then call ++ codes " succeeded\n"
    else call ++ failed_with msg (codes " failed (status=")
response_to number kv_delete msg =
    let call = call_of (codes "DELETE") (decimal msg.key) in
    if eq_nat msg.status 0
    then call ++ codes " succeeded\n"
    else call ++ failed_with msg (codes " failed: key not found or error (status=")
response_to number cmd msg =
    codes "Unknown command: " ++ decimal (number cmd) ++ failed_with msg (codes " (status=")

module _ ⦃hashing : Hashing⦄ where
  unfoldable pub do_kv_operation :
      Env → (Cmd → ℕ) → Cmd → List ℕ → List ℕ → Kernel → List ℕ × Kernel
  unfolding parse_key outgoing
  do_kv_operation env number cmd key value k = elim (parse_key key) [
    | none ↦ (codes "Invalid key: expected unsigned integer\n", k)
    | some parsed ↦
        let (ret, mem, k') =
          kv_ioctl env cmd
            (record { message = outgoing parsed value; snapshot = no_entries; counter = 0 }) k in
        if is_neg ret then (codes "ioctl failed", k') else (response_to number cmd mem.message, k')
  ]
