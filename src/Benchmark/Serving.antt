-- ===== src/Benchmark/Serving.antt =====
-- The daemon of user/daemon/daemon.cpp as the peer of benchmark/benchmark.cpp.
use kvstore_lkm.Prelude.{ℕ, suc, ap, Option, some, List, take}
use kvstore_lkm.Text.{c_string}
use kvstore_lkm.Hash.Table.{Hashing}
use kvstore_lkm.Hash.View.{Contents}
use kvstore_lkm.Device.RoundTrip.{IsLucky}
use kvstore_lkm.Daemon.Command.{Server, Setting, parse_and_handle_command}
use kvstore_lkm.Daemon.Protocol.{promised}
use kvstore_lkm.Daemon.Protocol.Answers.{Holds, command-Obeys}
use kvstore_lkm.Daemon.Protocol.Session.{received}
use kvstore_lkm.Benchmark.{Peer}
use kvstore_lkm.Benchmark.Promise.{KeepsPromise}

module _ ⦃hashing : Hashing⦄ where
  -- The server is an authenticated connection to a table that holds this.
  abbrev pub ServerShows : ℕ → Contents → ℕ × Server → Type 0
  ServerShows others f s = Holds others f s.1

module _ ⦃hashing : Hashing⦄ (settings : ℕ → Setting) where
  -- One command of a connection: its number, and the server.
  abbrev pub answer_one : List ℕ → ℕ × Server → Option (List ℕ) × (ℕ × Server)
  answer_one command (j, v) =
      let (response, v') = parse_and_handle_command (settings j) (c_string (take 1023 command)) v in
      (some response, (suc j, v'))

  abbrev pub daemon : Peer (ℕ × Server)
  daemon = record { exchange = answer_one }

  pub daemon-KeepsPromise :
      (others : ℕ)
      → ((j : ℕ) → IsLucky (settings j).env)
      → KeepsPromise daemon promised (ServerShows others)
  daemon-KeepsPromise others lucky = record {
    answers = λ o f s order fits shown.
        let obeys = command-Obeys (settings s.0) o shown (lucky s.0) order in
        let whole = received o order fits in rw whole (ap some obeys.text, obeys.holds);
  }
