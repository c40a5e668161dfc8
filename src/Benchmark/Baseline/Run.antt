-- ===== src/Benchmark/Baseline/Run.antt =====
-- `run_baseline_single_thread` of benchmark/benchmark.cpp against the daemon of user/daemon/daemon.cpp.
use kvstore_lkm.Prelude.{ℕ, ◌≡◌, ◌<◌, refl, true, false, none, some, List, arith}
use kvstore_lkm.Hash.Chain.{Chain}
use kvstore_lkm.Hash.Table.{Hashing, IsValid}
use kvstore_lkm.Hash.View.{contents}
use kvstore_lkm.Device.RoundTrip.{IsLucky}
use kvstore_lkm.Device.Values.{IsShort}
use kvstore_lkm.Daemon.Auth.{authenticate}
use kvstore_lkm.Daemon.Command.{Server, Setting}
use kvstore_lkm.Daemon.Protocol.Refused.{order_refused}
use kvstore_lkm.Daemon.Protocol.Session.{received}
use kvstore_lkm.Client.Connection.{IsLogin}
use kvstore_lkm.Benchmark.{Peer, Net, auth_user}
use kvstore_lkm.Benchmark.Login.{IsConnected, setup_run, login_shows, login_keeps}
use kvstore_lkm.Benchmark.Promise.{KeepsPromise}
use kvstore_lkm.Benchmark.Serving.{daemon, ServerShows, daemon-KeepsPromise}
use kvstore_lkm.Benchmark.Baseline.{key_count, Failures, baseline_loops, run_baseline_single_thread}
use kvstore_lkm.Benchmark.Baseline.Clean.{none_failed, baseline_clean}
use kvstore_lkm.Benchmark.Baseline.Refused.{refuse, only_mismatches, baseline_refused}

module _ {S : Type 0} (peer : Peer S) where
  baseline_run :
      (net : Net) (sock : ℕ) (username password : List ℕ) (s : S) (failures : Failures)
      → IsConnected net sock
      → (baseline_loops peer key_count (auth_user peer username password s).1).0 ≡ failures
      → run_baseline_single_thread peer net username password s
        ≡ (some failures, (baseline_loops peer key_count (auth_user peer username password s).1).1)
  baseline_run net sock username password s failures c e =
      unfold run_baseline_single_thread in rw (setup_run peer net sock username password s c, e)

-- A command on a key over a connection that has not authenticated.
module _ ⦃hashing : Hashing⦄ where
  -- The server is still this one.
  abbrev pub ServerIs : Server → Unit {0} → ℕ × Server → Type 0
  ServerIs v a s = s.1 ≡ v

  daemon-refuses :
      (settings : ℕ → Setting) (v : Server)
      → v.authenticated ≡ false
      → KeepsPromise (daemon settings) refuse (ServerIs v)
  daemon-refuses settings v closed = record {
    answers = λ o a s order fits is_v.
        let whole = received o order fits in
        let answer = order_refused (settings s.0) o v order closed in
        rw (whole, is_v, answer) (refl, refl);
  }

  module _ (settings : ℕ → Setting) (net : Net) (sock : ℕ) (username password : List ℕ) (j : ℕ)
      (v : Server) (connected : IsConnected net sock) (login : IsLogin username password) where
    -- Against the daemon on a valid table of values shorter than 64 bytes that has none of the keys
    -- below 50000, over a connection that is made, with a login of words with no space and no NUL
    -- that fits 1023 bytes and that PAM accepts, and with calls of the device that succeed, the
    -- baseline benchmark reports no failure of any kind, and leaves a valid table with the contents
    -- from before.
    pub run_baseline_clean :
        {others : ℕ} {bs : List Chain}
        → ((i : ℕ) → IsLucky (settings i).env)
        → IsValid others v.kernel bs
        → IsShort (contents v.kernel)
        → ((q : ℕ) → q < key_count → contents v.kernel q ≡ none)
        → authenticate (settings j).pam username password ≡ true
        → let r = run_baseline_single_thread (daemon settings) net username password (j, v) in
          (r.0 ≡ some none_failed) × ServerShows others (contents v.kernel) r.1
    run_baseline_clean {others} lucky valid short absent accepts =
        let shown = login_shows settings username password j v login valid short accepts in
        let done =
          baseline_clean (daemon-KeepsPromise settings others lucky) (contents v.kernel) key_count
            (auth_user (daemon settings) username password (j, v)).1 (omega arith) absent shown in
        rw
          (baseline_run (daemon settings) net sock username password (j, v) none_failed connected
            (done.0))
          (refl, done.1)

    -- Against the daemon, over a connection that is made and has not authenticated, with a login of
    -- words with no space and no NUL that fits 1023 bytes and that PAM refuses, the baseline
    -- benchmark runs all the same: it reports no failed insert, no empty get and no failed delete,
    -- and 50000 gets as mismatches, and the server is as before.
    pub run_baseline_refused :
        v.authenticated ≡ false
        → authenticate (settings j).pam username password ≡ false
        → let r = run_baseline_single_thread (daemon settings) net username password (j, v) in
          (r.0 ≡ some (only_mismatches key_count)) × (r.1.1 ≡ v)
    run_baseline_refused closed refuses =
        let done =
          baseline_refused (daemon-refuses settings v closed) key_count
            (auth_user (daemon settings) username password (j, v)).1 (omega arith)
            (login_keeps settings username password j v login refuses) in
        rw
          (baseline_run (daemon settings) net sock username password (j, v)
            (only_mismatches key_count) connected (done.0))
          (refl, done.1)
