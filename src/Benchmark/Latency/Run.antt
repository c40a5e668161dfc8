-- ===== src/Benchmark/Latency/Run.antt =====
-- The latency benchmarks of benchmark/benchmark.cpp against the daemon of user/daemon/daemon.cpp.
use kvstore_lkm.Prelude.{ℕ, ◌+◌, ◌*◌, ◌≡◌, ◌≤◌, ◌<◌, ◌^◌, true, List, arith}
use kvstore_lkm.Hash.Chain.{Chain}
use kvstore_lkm.Hash.Table.{Hashing, IsValid}
use kvstore_lkm.Hash.View.{contents}
use kvstore_lkm.Device.RoundTrip.{IsLucky}
use kvstore_lkm.Device.Values.{IsShort}
use kvstore_lkm.Daemon.Auth.{authenticate}
use kvstore_lkm.Daemon.Command.{Server, Setting}
use kvstore_lkm.Client.Connection.{IsLogin}
use kvstore_lkm.Benchmark.{Peer, Net, auth_user}
use kvstore_lkm.Benchmark.Serving.{daemon, ServerShows, daemon-KeepsPromise}
use kvstore_lkm.Benchmark.Login.{IsConnected, setup_run, login_shows}
use kvstore_lkm.Benchmark.Latency.{
  key_count, warmup_count, latency_loops, run_latency_bench_single_core, worker,
}
use kvstore_lkm.Benchmark.Latency.Leaves.{LacksAll, left_behind, latency_loops_lem}

module _ {S : Type 0} (peer : Peer S) (net : Net) (sock : ℕ) (username password : List ℕ) (s : S)
    (connected : IsConnected net sock) where
  single_core_run :
      run_latency_bench_single_core peer net username password s
      ≡ latency_loops peer 0 (auth_user peer username password s).1
  single_core_run =
      unfold run_latency_bench_single_core in
      rw (setup_run peer net sock username password s connected)

  worker_run :
      (tid : ℕ)
      → worker peer net username password tid true s
        ≡ latency_loops peer (tid * 1000000) (auth_user peer username password s).1
  worker_run tid = unfold worker in rw (setup_run peer net sock username password s connected)

module _ ⦃hashing : Hashing⦄ {others : ℕ} {bs : List Chain} (settings : ℕ → Setting) (net : Net)
    (sock : ℕ) (username password : List ℕ) (j : ℕ) (v : Server) (connected : IsConnected net sock)
    (login : IsLogin username password) (lucky : (i : ℕ) → IsLucky (settings i).env)
    (valid : IsValid others v.kernel bs) (short : IsShort (contents v.kernel))
    (accepts : authenticate (settings j).pam username password ≡ true) where
  loops_leave :
      (base : ℕ)
      → base + key_count * 10 + warmup_count ≤ 2 ^ 64
      → LacksAll base (contents v.kernel)
      → ServerShows others (left_behind base (contents v.kernel)) (
          latency_loops
            (daemon settings)
            base
            (auth_user (daemon settings) username password (j, v)).1)
  loops_leave base in_range absent =
      latency_loops_lem (daemon-KeepsPromise settings others lucky) base in_range
        (contents v.kernel) (auth_user (daemon settings) username password (j, v)).1 (absent.0)
        (absent.1) (login_shows settings username password j v login valid short accepts)

  -- Against the daemon on a valid table of values shorter than 64 bytes, over a connection that is
  -- made, with a login of words with no space and no NUL that fits 1023 bytes and that PAM accepts,
  -- with calls of the device that succeed, and if none of the keys that it uses, those from 0 to
  -- 19999 and from 200000 to 201999, is in the table, the single-core latency benchmark leaves a
  -- valid table that is as before but for 2000 new keys: those of the warm-up, from 200000 on.
  pub single_core_leaves :
      LacksAll 0 (contents v.kernel)
      → ServerShows others
          (left_behind 0 (contents v.kernel))
          (run_latency_bench_single_core (daemon settings) net username password (j, v))
  single_core_leaves absent =
      rw (single_core_run (daemon settings) net sock username password (j, v) connected)
        (loops_leave 0 (omega arith) absent)

  -- Against the daemon on a valid table of values shorter than 64 bytes, over a connection that is
  -- made, with a login of words with no space and no NUL that fits 1023 bytes and that PAM accepts,
  -- with calls of the device that succeed, and if none of the keys that it uses, those of the
  -- single-core benchmark with 1000000 times its number added, is in the table, any one of the 8
  -- threads of the multi-thread latency benchmark whose file opens leaves a valid table that is as
  -- before but for 2000 new keys: those of its own warm-up.
  pub worker_leaves :
      (tid : ℕ)
      → tid < 8
      → LacksAll (tid * 1000000) (contents v.kernel)
      → ServerShows others
          (left_behind (tid * 1000000) (contents v.kernel))
          (worker (daemon settings) net username password tid true (j, v))
  worker_leaves tid few absent =
      rw (worker_run (daemon settings) net sock username password (j, v) connected tid)
        (loops_leave (tid * 1000000) (omega (arith, few)) absent)
