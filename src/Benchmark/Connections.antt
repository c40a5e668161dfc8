-- ===== src/Benchmark/Connections.antt =====
-- The connections of one daemon of user/daemon/daemon.cpp as the peers of benchmark/benchmark.cpp.
use kvstore_lkm.Prelude.{ℕ, suc, ◌≡◌, refl, ap, Bool, true, false, some, List, get_or, set}
use mathlib.Core.Path.{subst}
use kvstore_lkm.Hash.Table.{Hashing}
use kvstore_lkm.Hash.View.{Contents}
use kvstore_lkm.Device.RoundTrip.{IsLucky}
use kvstore_lkm.Daemon.Auth.{authenticate}
use kvstore_lkm.Daemon.Command.{Setting}
use kvstore_lkm.Daemon.Protocol.{Order, promised}
use kvstore_lkm.Daemon.Connections.{Service, server_of, handle_event}
use kvstore_lkm.Daemon.Connections.Shared.{event_of, SharesMap, SharesOne, shared_one, one_shared}
use kvstore_lkm.Client.Connection.{IsLogin, login_answer}
use kvstore_lkm.Benchmark.{Peer, auth_user}
use kvstore_lkm.Benchmark.Login.{auth_user_state, login_received}
use kvstore_lkm.Benchmark.Promise.{KeepsPromise}

module _ ⦃hashing : Hashing⦄ (settings : ℕ → Setting) where
  -- One of the connections of the daemon as a peer: the number of its next command, and what the
  -- connections share.
  abbrev pub on_connection : ℕ → Peer (ℕ × Service)
  on_connection c = record {
    exchange = λ command st.
        let (response, s) =
          handle_event (record { connection = c; setting = settings st.0; received = command })
            st.1 in
        (some response, (suc st.0, s));
  }

module _ ⦃hashing : Hashing⦄ (others : ℕ) (logged_in : List Bool) where
  abbrev pub Shows : Contents → ℕ × Service → Type 0
  Shows f st = SharesMap others logged_in f st.1

  pub connection-KeepsPromise :
      (settings : ℕ → Setting) (c : ℕ)
      → ((j : ℕ) → IsLucky (settings j).env)
      → get_or logged_in c false ≡ true
      → KeepsPromise (on_connection settings c) promised Shows
  connection-KeepsPromise settings c lucky logged = record {
    answers = λ o f st order fits shown.
        let one =
          one_shared (record { connection = c; order = o }) (settings st.0) st.1 shown (lucky st.0)
            order fits in
        let r =
          handle_event (event_of (record { connection = c; order = o }) (settings st.0)) st.1 in
        let kept = subst (λ p. SharesOne others logged_in r p) (the_promise c o f logged) one in
        (ap some kept.text, kept.shares);
  }
    where
      the_promise :
          (c : ℕ) (o : Order) (f : Contents)
          → get_or logged_in c false ≡ true
          → shared_one logged_in (record { connection = c; order = o }) f ≡ promised o f
      the_promise c o f logged = rw logged refl

  -- After a login that PAM accepts, the connection is one of those that have authenticated.
  pub connection_login :
      (settings : ℕ → Setting) (username password : List ℕ) (c : ℕ) (f : Contents)
      (st : ℕ × Service)
      → IsLogin username password
      → authenticate (settings st.0).pam username password ≡ true
      → Shows f st
      → SharesMap others
          (set logged_in c true)
          f
          (auth_user (on_connection settings c) username password st).1.1
  connection_login settings username password c f st login accepts shown =
      let v = server_of c st.1 in
      let answer = login_answer (settings st.0) username password v login.user login.pass accepts in
      rw (auth_user_state (on_connection settings c) username password st) (
        unfold handle_event in
        rw (login_received settings username password st.0 v login, answer)
          (record {
            chains = shown.chains;
            valid = shown.valid;
            reads = shown.reads;
            short = shown.short;
            same = ap (λ flags. set flags c true) shown.same;
          }))
