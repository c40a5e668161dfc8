-- ===== src/Daemon/Main/Restart.antt =====
-- A shutdown and the next start of user/daemon/daemon.cpp.
use kvstore_lkm.Prelude.{
  ℕ, suc, ◌≡◌, ◌<◌, ◌≤◌, ◌+◌, ◌^◌, arith, ◌==◌, refl, true, false, Option, none, some, List, [],
  ◌∷◌, ◌++◌, if◌then◌else◌, pos,
}
use kvstore_lkm.Hash.Chain.{Chain}
use kvstore_lkm.Hash.Table.{Hashing, Kernel, IsValid}
use kvstore_lkm.Hash.View.{contents, entry_total}
use kvstore_lkm.Hash.Export.{cut}
use kvstore_lkm.Device.RoundTrip.{IsLucky}
use kvstore_lkm.Daemon.Files.{SnapshotFile, do_kv_snapshot_to_file}
use kvstore_lkm.Daemon.Files.Save.{IsSaved}
use kvstore_lkm.Daemon.Files.Reload.{restore-save}
use kvstore_lkm.Daemon.Main.{
  Life, init_kv, init_network, listen_network, handle_shutdown_signal, Exit, descriptor, no_device,
  restored, run_server, main,
}

-- The daemon gets its device and its network, and its loop ends after it has accepted the clients.
pub record IsServed (life : Life) (server_fd : ℕ) (clients : List ℕ) : Type 0 where
  pub device : no_device (init_kv life) ≡ false
  pub network : init_network life ≡ (pos server_fd, [])
  pub ended : listen_network life.shutdown_before life.turns ≡ (clients, true)

-- How often a descriptor was closed.
unfoldable pub occurrences : ℕ → List ℕ → ℕ
occurrences fd [] = 0
occurrences fd (c ∷ closed) = (if c == fd then 1 else 0) + occurrences fd closed

occurs_later : (fd : ℕ) (a b : List ℕ) → 1 ≤ occurrences fd (a ++ (fd ∷ []) ++ b)
unfolding occurrences
occurs_later fd [] b = ground arith
occurs_later fd (c ∷ a) b = omega (arith, occurs_later fd a b)

twice :
    (fd signals : ℕ) (b : List ℕ)
    → 2 ≤ occurrences fd (handle_shutdown_signal (suc signals) (pos fd) ++ (fd ∷ []) ++ b)
unfolding occurrences handle_shutdown_signal
twice fd signals b = ground (arith, occurs_later fd (handle_shutdown_signal signals (pos fd)) b)

module _ ⦃hashing : Hashing⦄ where
  -- The file and the store when the clients are done.
  abbrev pub after_clients :
      Life → List ℕ → Option SnapshotFile → Kernel → Option SnapshotFile × Kernel
  after_clients life clients file k = life.serve clients (file, restored life file k)

  main_run :
      (life : Life) (server_fd : ℕ) (clients : List ℕ) (file : Option SnapshotFile) (k : Kernel)
      → IsServed life server_fd clients
      → main life file k ≡ (
          let served = after_clients life clients file k in
          let saved = do_kv_snapshot_to_file life.saving served.0 served.1 in
          some (record {
            code = 0;
            closed =
                handle_shutdown_signal life.signals (pos server_fd)
                ++ (server_fd ∷ [])
                ++ descriptor (init_kv life);
            file = saved.0;
            kernel = saved.1;
          }))
  main_run life server_fd clients file k s =
      unfold main run_server in rw (s.device, s.network, main, s.ended, run_server) refl

  -- If a run of the daemon gets its device and its network and its loop ends, the table is valid
  -- with at least one entry and below 2^31 when its clients are done, and every call and allocation
  -- of the last save succeeds with no change between its two calls, then the run exits with code 0,
  -- and the next run, on a valid table with no key and with calls that succeed, begins to listen
  -- with every value of that table, cut to 63 bytes, under its key.
  pub restart :
      {others others' : ℕ} {bs bs₀ : List Chain} {k₀ : Kernel} (life next : Life) (server_fd : ℕ)
      (clients : List ℕ) (file : Option SnapshotFile) (k : Kernel)
      → IsServed life server_fd clients
      → IsValid others (after_clients life clients file k).1 bs
      → entry_total (after_clients life clients file k).1 < 2 ^ 31
      → 0 < entry_total (after_clients life clients file k).1
      → IsSaved life.saving
      → life.saving.between (after_clients life clients file k).1
        ≡ (after_clients life clients file k).1
      → IsValid others' k₀ bs₀
      → ((q : ℕ) → contents k₀ q ≡ none)
      → ((j : ℕ) → IsLucky (next.restore_envs j))
      → (exit : Exit) × (main life file k ≡ some exit)
        × (exit.code ≡ 0)
        × ((q : ℕ)
            → contents (restored next exit.file k₀) q
              ≡ cut (contents (after_clients life clients file k).1 q))
  unfolding restored
  restart life next server_fd clients file k s valid few some_there works alone valid₀ empty lucky =
      let served = after_clients life clients file k in
      let back =
        restore-save valid few some_there valid₀ empty life.saving served.0 next.restore_envs
          next.garbage works alone lucky in
      (_, main_run life server_fd clients file k s, refl, back.2)

  -- A run of the daemon that gets its device and its network, whose loop ends, and that gets at
  -- least one signal closes the descriptor of its server socket at least twice.
  pub closes_twice :
      (life : Life) (server_fd signals : ℕ) (clients : List ℕ) (file : Option SnapshotFile)
      (k : Kernel)
      → IsServed life server_fd clients
      → life.signals ≡ suc signals
      → (exit : Exit) × (main life file k ≡ some exit) × (2 ≤ occurrences server_fd exit.closed)
  unfolding init_kv
  closes_twice life server_fd signals clients file k s asked = (
    _,
    main_run life server_fd clients file k s,
    rw asked (twice server_fd signals (descriptor (init_kv life))),
  )
