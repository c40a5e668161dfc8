-- ===== src/Daemon/Command.antt =====
-- `parse_and_handle_command` of user/daemon/daemon.cpp.
pub mod Access
pub mod Dispatch
use kvstore_lkm.Prelude.{
  ℕ, Bool, true, false, not, Option, none, some, List, [], ◌∷◌, ◌++◌, ◌==◌, if◌then◌else◌, codes,
  text_eq,
}
use kvstore_lkm.Message.{Cmd, kv_insert, kv_delete, kv_get, kv_update}
use kvstore_lkm.Hash.Table.{Hashing, Kernel}
use kvstore_lkm.Device.Handlers.{Env}
use kvstore_lkm.Daemon.Words.{read_word, get_line}
use kvstore_lkm.Daemon.Auth.{Pam, authenticate}
use kvstore_lkm.Daemon.Operation.{do_kv_operation}
use kvstore_lkm.Daemon.Files.{SnapshotFile, Saving, do_kv_snapshot_to_file}

-- What one connection can change: the store, the snapshot file, and whether it has authenticated.
pub record Server : Type 0 where
  pub kernel : Kernel
  pub file : Option SnapshotFile
  pub authenticated : Bool

-- What the rest of the system does during one command.
pub record Setting : Type 0 where
  pub env : Env
  pub number : Cmd → ℕ
  pub pam : Pam
  pub saving : Saving

-- `value.substr(1)` if the value begins with a space.
abbrev pub drop_space : List ℕ → List ℕ
drop_space [] = []
drop_space (c ∷ s) = if c == 32 then s else c ∷ s

abbrev pub is_empty : List ℕ → Bool
is_empty [] = true
is_empty (c ∷ s) = false

-- The command that an operation names, or the answer to the client: the operation is unknown, or
-- it lacks its value.
pub data Chosen : Type 0 where
  run : Cmd → Chosen
  answer : List ℕ → Chosen

unfoldable pub choose : List ℕ → List ℕ → Chosen
unfolding text_eq
choose operation value =
    if text_eq operation (codes "KV_INSERT")
    then (if is_empty value then answer (codes "KV_INSERT requires a value\n") else run kv_insert)
    else if text_eq operation (codes "KV_DELETE")
    then run kv_delete
    else if text_eq operation (codes "KV_GET")
    then run kv_get
    else if text_eq operation (codes "KV_UPDATE")
    then (if is_empty value then answer (codes "KV_UPDATE requires a value\n") else run kv_update)
    else answer (codes "Unknown operation: " ++ operation ++ codes "\n")

-- AUTH, with the stream behind the operation.
unfoldable pub do_auth : Setting → List ℕ → Server → List ℕ × Server
do_auth set s v = elim (read_word s) [
  | none ↦ (codes "No username provided", v)
  | some (username, s') ↦ elim (read_word s') [
    | none ↦ (codes "No password provided", v)
    | some (password, _) ↦
        if authenticate set.pam username password
        then (codes "OK\n", record v { authenticated = true })
        else (codes "FAIL\n", v)
  ]
]

module _ ⦃hashing : Hashing⦄ where
  -- The operations with a key, with the stream behind the operation.
  unfoldable pub do_keyed : Setting → List ℕ → List ℕ → Server → List ℕ × Server
  do_keyed set operation s v = elim (read_word s) [
    | none ↦ (codes "Invalid command format. Expected: kv <operation> <key> ", v)
    | some (key, s') ↦
        let value = drop_space (get_line s') in
        elim (choose operation value) [
          | answer text ↦ (text, v)
          | run cmd ↦
              let (text, k) = do_kv_operation set.env set.number cmd key value v.kernel in
              (text, record v { kernel = k })
        ]
  ]

  unfoldable pub do_snapshot : Setting → Server → List ℕ × Server
  do_snapshot set v =
      let (file, k) = do_kv_snapshot_to_file set.saving v.file v.kernel in
      (codes "Snap", record v { file = file; kernel = k })

  unfoldable pub parse_and_handle_command : Setting → List ℕ → Server → List ℕ × Server
  parse_and_handle_command set command v = elim (read_word command) [
    | none ↦ (codes "Invalid command format. Expected: kv <operation> ...\n", v)
    | some (operation, s) ↦
        if text_eq operation (codes "AUTH")
        then do_auth set s v
        else if not v.authenticated
        then (codes "Connection not authenticated!\n", v)
        else if text_eq operation (codes "KV_SNAPSHOT")
        then do_snapshot set v
        else do_keyed set operation s v
  ]
