-- ===== src/Benchmark/Concurrent/Run.antt =====
-- `run_concurrent_read_write` of benchmark/benchmark.cpp against the daemon of user/daemon/daemon.cpp.
use kvstore_lkm.Prelude.{
  ℕ, suc, ◌≡◌, ◌≤◌, ◌<◌, ◌^◌, refl, sym, ◌∙◌, Bool, true, false, none, some, Option, List, ◌++◌,
  codes, arith, get_or, set, replicate, length, length-set, length-replicate, get_or-set,
  get_or-replicate,
}
use mathlib.Core.Bool.{false≢true}
use mathlib.Core.List.{map}
use mathlib.Core.Path.{subst}
use kvstore_lkm.Text.{decimal}
use kvstore_lkm.Hash.Chain.{Chain}
use kvstore_lkm.Hash.Table.{Hashing, IsValid}
use kvstore_lkm.Hash.View.{Contents, contents}
use kvstore_lkm.Device.RoundTrip.{IsLucky}
use kvstore_lkm.Device.Values.{IsShort}
use kvstore_lkm.Daemon.Auth.{authenticate}
use kvstore_lkm.Daemon.Command.{Setting}
use kvstore_lkm.Daemon.Connections.{Service}
use kvstore_lkm.Daemon.Protocol.{promised}
use kvstore_lkm.Client.Connection.{IsLogin}
use kvstore_lkm.Benchmark.{Peer, Net, auth_user}
use kvstore_lkm.Benchmark
use kvstore_lkm.Benchmark.Promise.{KeepsPromise, absent_inserts, kv_insert_lem}
use kvstore_lkm.Benchmark.Connections.{
  on_connection, Shows, connection-KeepsPromise, connection_login,
}
use kvstore_lkm.Benchmark.Login.{IsConnected, setup_run}
use kvstore_lkm.Benchmark.Check.{count_text}
use kvstore_lkm.Benchmark.Concurrent.{
  hot_key, Counters, no_counts, Place, run_turns, joins, run_concurrent_read_write,
}
use kvstore_lkm.Benchmark.Concurrent.Clean.{zero_key, count_text-IsValue, with_count}
use kvstore_lkm.Benchmark.Concurrent.Turns.{place_of, writes_in, reads_in, ServesAll}
use kvstore_lkm.Benchmark.Concurrent.Steps.{Stands, run_turns-TurnsClean}
use kvstore_lkm.Benchmark.Concurrent.Stop.{AllEnded, run_turns-StopsClean, join-AllEnded}

module _ {S : Type 0} {peer : Peer S} {shows : Contents → S → Type 0}
    (keeps : KeepsPromise peer promised shows) (f : Contents) where
  first_insert :
      (s : S)
      → f 0 ≡ none
      → shows f s
      → shows (with_count 0 f) (Benchmark.kv_insert peer hot_key (codes "count:0") s).1
  first_insert s absent shown =
      let done =
        kv_insert_lem keeps 0 (omega arith) f s shown (count_text 0) (count_text-IsValue 0) in
      let put =
        subst (λ g. shows g (Benchmark.kv_insert peer (decimal 0) (count_text 0) s).1)
          (absent_inserts 0 (count_text 0) f absent) (done.1) in
      subst
        (λ key. shows (with_count 0 f) (Benchmark.kv_insert peer key (codes "count:" ++ key) s).1)
        zero_key put

-- What the benchmark reports after these turns, over a table that held this: it has counted every
-- write and every read, none of them as empty or bad, and the key holds a count.
pub record ReportsClean {S : Type 0} (shows : List Bool → Contents → S → Type 0) (f : Contents)
    (turns : List ℕ) (r : Option (Option (List Place × Counters) × S)) : Type 0 where
  pub places : List Place
  pub counters : Counters
  pub last : ℕ
  pub flags : List Bool
  pub state : S
  pub run : r ≡ some (some (places, counters), state)
  pub all_ended : AllEnded places
  pub writes : counters.writes ≡ writes_in (replicate 10 false) turns
  pub reads : counters.reads ≡ reads_in (replicate 10 false) turns
  pub none_empty : counters.empty_reads ≡ 0
  pub none_bad : counters.bad_reads ≡ 0
  pub shown : shows flags (with_count last f) state

module _ {S : Type 0} (peers : ℕ → Peer S) (nets : ℕ → Net) (username password : List ℕ) where
  concurrent_run :
      (sock : ℕ) (turns late : List ℕ) (s : S) (places places' : List Place) (c c' : Counters)
      (s₂ s₃ : S)
      → IsConnected (nets 0) (suc sock)
      → run_turns peers nets username password false turns
          (map place_of (replicate 10 false))
          no_counts
          (Benchmark.kv_insert
            (peers 0)
            hot_key
            (codes "count:0")
            (auth_user (peers 0) username password s).1).1
        ≡ some (places, c, s₂)
      → run_turns peers nets username password true (late ++ joins) places c s₂
        ≡ some (places', c', s₃)
      → run_concurrent_read_write peers nets username password turns late s
        ≡ some (some (places', c'), s₃)
  unfolding run_concurrent_read_write replicate
  concurrent_run sock turns late s places places' c c' s₂ s₃ connected e e' =
      rw (setup_run (peers 0) (nets 0) (suc sock) username password s connected, e, e') refl

module _ ⦃hashing : Hashing⦄ where
  daemon-ServesAll :
      (settings : ℕ → Setting) (others : ℕ) (username password : List ℕ)
      → IsLogin username password
      → ((i : ℕ) → IsLucky (settings i).env)
      → ((i : ℕ) → authenticate (settings i).pam username password ≡ true)
      → ServesAll (on_connection settings) username password (Shows others)
  daemon-ServesAll settings others username password login lucky accepts = record {
    promise = λ flags c logged. connection-KeepsPromise others flags settings c lucky logged;
    login = λ flags c f st shown.
        connection_login others flags settings username password c f st login (accepts st.0) shown;
  }

  -- Against the daemon on a valid table of values shorter than 64 bytes without the key 0, with 11
  -- connections or more, all of them made on sockets above 0, with a login of words with no space
  -- and no NUL that fits 1023 bytes and that PAM accepts whenever it is asked, and with calls of
  -- the device that succeed: let the writer and the nine readers take turns in any order before the
  -- stop and after it, each making its connection and logging in at its first turn and doing a
  -- round at every other one before the stop, with at most 2^63 writes. Then all ten threads are at
  -- their end when they have been joined, the report counts every write and every read and none of
  -- them as empty or bad, and the benchmark leaves a valid table that differs from the one before
  -- only in a count at the key 0.
  pub run_concurrent_clean :
      {others : ℕ} {bs : List Chain} (settings : ℕ → Setting) (nets : ℕ → Net) (socks : ℕ → ℕ)
      (username password : List ℕ) (turns late : List ℕ) (j : ℕ) (v : Service)
      → ((c : ℕ) → IsConnected (nets c) (suc (socks c)))
      → IsLogin username password
      → ((i : ℕ) → IsLucky (settings i).env)
      → ((i : ℕ) → authenticate (settings i).pam username password ≡ true)
      → IsValid others v.kernel bs
      → IsShort (contents v.kernel)
      → contents v.kernel 0 ≡ none
      → 10 < length v.authenticated
      → writes_in (replicate 10 false) turns ≤ 2 ^ 63
      → ReportsClean (Shows others) (contents v.kernel) turns (
          run_concurrent_read_write
            (on_connection settings)
            nets
            username
            password
            turns
            late
            (j, v))
  run_concurrent_clean {others} {bs} settings nets socks username password turns late j v connected
        login lucky accepts valid short absent enough few =
      let serves = daemon-ServesAll settings others username password login lucky accepts in
      let f = contents v.kernel in
      let peers = on_connection settings in
      let flags = set v.authenticated 0 true in
      let before : Shows others v.authenticated f (j, v) = record {
        chains = bs;
        valid = valid;
        reads = λ q. refl;
        short = short;
        same = refl;
      } in
      let shown = serves.login v.authenticated 0 f (j, v) before in
      let s₁ = (auth_user (peers 0) username password (j, v)).1 in
      let logged : get_or flags 0 false ≡ true =
        get_or-set v.authenticated 0 0 true false (omega (arith, enough)) in
      let set' = first_insert (serves.promise flags 0 logged) f s₁ absent shown in
      let s₂ = (Benchmark.kv_insert (peers 0) hot_key (codes "count:0") s₁).1 in
      let stands : Stands serves nets socks connected f (replicate 10 false) flags 0 s₂ = record {
        room = omega (arith, enough, length-set v.authenticated 0 true, length-replicate 10 false);
        authed = λ i h. absurd (false≢true (sym (get_or-replicate 10 i false) ∙ h));
        small = omega arith;
        shown = set';
      } in
      let runs =
        run_turns-TurnsClean serves nets socks connected f turns (replicate 10 false) flags
          no_counts 0 s₂ (omega (arith, few)) stands in
      let stops =
        run_turns-StopsClean serves nets socks connected f (late ++ joins) runs.places runs.flags
          runs.counters runs.last runs.state runs.shown in
      record {
        places = stops.places;
        counters = runs.counters;
        last = runs.last;
        flags = stops.flags;
        state = stops.state;
        run =
            concurrent_run peers nets username password (socks 0) turns late (j, v) runs.places
              stops.places runs.counters runs.counters runs.state stops.state (connected 0) runs.run
              stops.run;
        all_ended =
            join-AllEnded serves nets socks connected f late runs.places runs.last runs.counters _
              stops;
        writes = omega (arith, runs.writes);
        reads = omega (arith, runs.reads);
        none_empty = runs.none_empty;
        none_bad = runs.none_bad;
        shown = stops.shown;
      }
