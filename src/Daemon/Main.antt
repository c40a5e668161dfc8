-- ===== src/Daemon/Main.antt =====
-- The life of the daemon: `main`, `init_kv`, `init_network`, `listen_network` and the shutdown of
-- user/daemon/daemon.cpp.
pub mod Restart
use kvstore_lkm.Prelude.{
  ℕ, zero, suc, ◌+◌, Bool, true, false, not, Option, none, some, List, [], ◌∷◌, ◌++◌, if◌then◌else◌,
  ℤ, pos, negsuc, is_neg,
}
use kvstore_lkm.Message.{KvMessage}
use kvstore_lkm.Hash.Table.{Hashing, Kernel}
use kvstore_lkm.Device.Handlers.{Env}
use kvstore_lkm.Daemon.Files.{SnapshotFile, Saving, do_kv_snapshot_to_file, do_kv_restore_from_file}

-- What `accept` gives: a client's socket, EINTR, or another error.
pub data Accept : Type 0 where
  client : ℕ → Accept
  interrupted failed : Accept

-- One turn of the loop: what `accept` gives, and whether a signal has asked for the shutdown by the
-- time that the loop tests it next.
pub record Turn : Type 0 where
  pub accept : Accept
  pub shutdown : Bool

-- What the rest of the system does during one run of the daemon. `serve` is what the threads of the
-- clients do to the snapshot file and the store until the daemon saves for the last time.
pub record Life : Type 0 where
  pub opened : ℤ
  pub restore_envs : ℕ → Env
  pub garbage : List KvMessage
  pub socket : Option ℕ
  pub reuse_ok : Bool
  pub bind_ok : Bool
  pub listen_ok : Bool
  pub shutdown_before : Bool
  pub turns : List Turn
  pub signals : ℕ
  pub serve : List ℕ → Option SnapshotFile × Kernel → Option SnapshotFile × Kernel
  pub saving : Saving

-- The device's descriptor, or -1.
unfoldable pub init_kv : Life → ℤ
init_kv life = if is_neg life.opened then negsuc 0 else life.opened

-- The server's socket, or -1, and the descriptors that were closed.
unfoldable pub init_network : Life → ℤ × List ℕ
init_network life = elim life.socket [
  | none ↦ (negsuc 0, [])
  | some server_fd ↦
      if not life.reuse_ok
      then (negsuc 0, server_fd ∷ [])
      else if not life.bind_ok
      then (negsuc 0, server_fd ∷ [])
      else if not life.listen_ok
      then (negsuc 0, server_fd ∷ [])
      else (pos server_fd, [])
]

-- The clients for which a thread was started, and whether the loop has ended.
unfoldable pub listen_network : Bool → List Turn → List ℕ × Bool
listen_network true turns = ([], true)
listen_network false [] = ([], false)
listen_network false (t ∷ turns) =
    let (clients, ended) = listen_network t.shutdown turns in
    elim t.accept [
      | client fd ↦ (fd ∷ clients, ended)
      | interrupted ↦ (clients, ended)
      | failed ↦ (clients, ended)
    ]

-- The descriptors that the handler closes for so many signals.
unfoldable pub handle_shutdown_signal : ℕ → ℤ → List ℕ
handle_shutdown_signal zero fd = []
handle_shutdown_signal (suc signals) (pos fd) = fd ∷ handle_shutdown_signal signals (pos fd)
handle_shutdown_signal (suc signals) (negsuc n) = []

-- The exit code, the descriptors that were closed, the snapshot file and the store.
pub record Exit : Type 0 where
  pub code : ℕ
  pub closed : List ℕ
  pub file : Option SnapshotFile
  pub kernel : Kernel

abbrev pub descriptor : ℤ → List ℕ
descriptor (pos fd) = fd ∷ []
descriptor (negsuc n) = []

-- `kv_fd <= 0`
abbrev pub no_device : ℤ → Bool
no_device (pos zero) = true
no_device (pos (suc n)) = false
no_device (negsuc n) = true

module _ ⦃hashing : Hashing⦄ where
  -- The store when the daemon begins to listen.
  unfoldable pub restored : Life → Option SnapshotFile → Kernel → Kernel
  restored life file k = (do_kv_restore_from_file life.restore_envs life.garbage file k).1

  -- From the loop on: the last save and the cleanup.
  unfoldable pub run_server : Life → ℤ → ℤ → Option SnapshotFile → Kernel → Option Exit
  unfolding handle_shutdown_signal
  run_server life kv_fd server_fd file k =
      let (clients, ended) = listen_network life.shutdown_before life.turns in
      if not ended
      then none
      else let served = life.serve clients (file, k) in
        let saved = do_kv_snapshot_to_file life.saving served.0 served.1 in
        some (record {
          code = 0;
          closed =
              handle_shutdown_signal life.signals server_fd
              ++ descriptor server_fd
              ++ descriptor kv_fd;
          file = saved.0;
          kernel = saved.1;
        })

  -- `none`: the daemon still listens.
  unfoldable pub main : Life → Option SnapshotFile → Kernel → Option Exit
  unfolding init_kv restored
  main life file k =
      let kv_fd = init_kv life in
      if no_device kv_fd
      then some (record { code = 1; closed = []; file = file; kernel = k })
      else let k₁ = restored life file k in
        let (server_fd, closed) = init_network life in
        if is_neg server_fd
        then some
            (record { code = 1; closed = closed ++ descriptor kv_fd; file = file; kernel = k₁ })
        else run_server life kv_fd server_fd file k₁
