-- ===== src/Daemon/Connections.antt =====
-- Several connections of user/daemon/daemon.cpp at once: `listen_network` starts a thread with
-- `handle_client` for each. A command is one step here; what threads do to each other inside the
-- device is in Device/Interleave.
pub mod Shared
pub mod Isolated
use kvstore_lkm.Prelude.{ℕ, Bool, false, Option, List, [], ◌∷◌, get_or, set, take}
use kvstore_lkm.Text.{c_string}
use kvstore_lkm.Hash.Table.{Hashing, Kernel}
use kvstore_lkm.Daemon.Files.{SnapshotFile}
use kvstore_lkm.Daemon.Command.{Server, Setting, parse_and_handle_command}

-- What the threads share, and the `authenticated` of each, by the number of its connection.
pub record Service : Type 0 where
  pub kernel : Kernel
  pub file : Option SnapshotFile
  pub authenticated : List Bool

-- What one connection reads next, and what the system does during the command.
pub record Event : Type 0 where
  pub connection : ℕ
  pub setting : Setting
  pub received : List ℕ

abbrev pub server_of : ℕ → Service → Server
server_of c s = record {
  kernel = s.kernel;
  file = s.file;
  authenticated = get_or s.authenticated c false;
}

module _ ⦃hashing : Hashing⦄ where
  unfoldable pub handle_event : Event → Service → List ℕ × Service
  unfolding get_or set
  handle_event e s =
      let (response, v) =
        parse_and_handle_command e.setting (c_string (take 1023 e.received))
          (server_of e.connection s) in
      (
        response,
        record {
          kernel = v.kernel;
          file = v.file;
          authenticated = set s.authenticated e.connection v.authenticated;
        },
      )

  -- The responses in the order of the events.
  unfoldable pub handle_events : List Event → Service → List (List ℕ) × Service
  handle_events [] s = ([], s)
  handle_events (e ∷ es) s =
      let (response, s') = handle_event e s in
      let (responses, s'') = handle_events es s' in (response ∷ responses, s'')
