-- ===== src/Daemon/Session.antt =====
-- `handle_client` of user/daemon/daemon.cpp: the loop over what a socket delivers.
pub mod Gate
use kvstore_lkm.Prelude.{ℕ, Bool, not, List, [], ◌∷◌, if◌then◌else◌, take}
use kvstore_lkm.Text.{c_string}
use kvstore_lkm.Hash.Table.{Hashing}
use kvstore_lkm.Daemon.Command.{Server, Setting, parse_and_handle_command}

-- What `read` of up to 1023 bytes gives: bytes (at least one), the end, EINTR, or another error.
pub data Read : Type 0 where
  bytes : List ℕ → Read
  end_of_file interrupted failed : Read

-- One round of the loop: the read, what the system does during the command, and whether `write` works.
pub record Round : Type 0 where
  pub read : Read
  pub setting : Setting
  pub write_ok : Bool

-- Why the loop ended; `waiting` means that the rounds ran out and it still reads.
pub data Ended : Type 0 where
  waiting disconnected read_error write_error : Ended

module _ ⦃hashing : Hashing⦄ where
  -- The responses that were written, how the loop ended, and the server then. The buffer is zeroed
  -- before each read, so that the command ends at the first NUL of what was read.
  unfoldable pub handle_client : List Round → Server → List (List ℕ) × Ended × Server
  handle_client [] v = ([], waiting, v)
  handle_client (r ∷ rs) v = elim r.read [
    | end_of_file ↦ ([], disconnected, v)
    | failed ↦ ([], read_error, v)
    | interrupted ↦ handle_client rs v
    | bytes received ↦
        let (response, v') = parse_and_handle_command r.setting (c_string (take 1023 received)) v in
        if not r.write_ok
        then ([], write_error, v')
        else let (responses, ended, v'') = handle_client rs v' in (response ∷ responses, ended, v'')
  ]
