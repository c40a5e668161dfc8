-- ===== src/Benchmark/Login.antt =====
-- The connection of benchmark/benchmark.cpp to the daemon, from `setup_connection` to the answer of
-- `auth_user`.
use kvstore_lkm.Prelude.{
  ℕ, suc, ◌≡◌, refl, ap, ◌∙◌, true, false, some, List, [], ◌∷◌, take, take_all, codes, pos,
}
use kvstore_lkm.Text.{c_string, c_string_self}
use kvstore_lkm.Hash.Chain.{Chain}
use kvstore_lkm.Hash.Table.{Hashing, IsValid}
use kvstore_lkm.Hash.View.{contents}
use kvstore_lkm.Device.Values.{IsShort}
use kvstore_lkm.Daemon.Auth.{authenticate}
use kvstore_lkm.Daemon.Command.{Server, Setting, parse_and_handle_command}
use kvstore_lkm.Client.{auth_message}
use kvstore_lkm.Client.Connection.{IsLogin, login_answer, login_refused, auth_message-NoNul}
use kvstore_lkm.Benchmark.{Peer, Net, auth_user, setup_connection}
use kvstore_lkm.Benchmark.Serving.{daemon, ServerShows}

-- The calls of the operating system succeed.
pub record IsConnected (net : Net) (sock : ℕ) : Type 0 where
  pub socket : net.socket ≡ some sock
  pub address : net.address_ok ≡ true
  pub connected : net.connect_ok ≡ true

module _ {S : Type 0} (peer : Peer S) where
  pub auth_user_state :
      (username password : List ℕ) (s : S)
      → (auth_user peer username password s).1
        ≡ (peer.exchange (auth_message username password) s).1
  auth_user_state username password s = unfold auth_user in refl

  pub setup_run :
      (net : Net) (sock : ℕ) (username password : List ℕ) (s : S)
      → IsConnected net sock
      → setup_connection peer net username password s
        ≡ (pos sock, sock ∷ [], (auth_user peer username password s).1)
  setup_run net sock username password s c =
      unfold setup_connection in rw (c.socket, setup_connection, c.address, c.connected)

module _ ⦃hashing : Hashing⦄ where
  module _ (settings : ℕ → Setting) (username password : List ℕ) (j : ℕ) (v : Server)
      (login : IsLogin username password) where
    pub login_received :
        c_string (take 1023 (auth_message username password)) ≡ auth_message username password
    login_received =
        let line = auth_message username password in
        ap c_string (take_all 1023 line login.fits)
        ∙ c_string_self line (auth_message-NoNul username password login.user login.pass)

    after_login :
        (answer : List ℕ) (v' : Server)
        → parse_and_handle_command (settings j) (auth_message username password) v ≡ (answer, v')
        → (auth_user (daemon settings) username password (j, v)).1 ≡ (suc j, v')
    after_login answer v' e =
        auth_user_state (daemon settings) username password (j, v) ∙ rw (login_received, e) refl

    -- After a login that PAM accepts, the connection shows the table.
    pub login_shows :
        {others : ℕ} {bs : List Chain}
        → IsValid others v.kernel bs
        → IsShort (contents v.kernel)
        → authenticate (settings j).pam username password ≡ true
        → ServerShows others
            (contents v.kernel)
            (auth_user (daemon settings) username password (j, v)).1
    login_shows {bs = bs} valid short accepts =
        let answer = login_answer (settings j) username password v login.user login.pass accepts in
        rw (after_login (codes "OK\n") (record v { authenticated = true }) answer)
          (record { chains = bs; valid = valid; reads = λ q. refl; short = short; authed = refl })

    -- After one that PAM refuses, the server is as before.
    pub login_keeps :
        authenticate (settings j).pam username password ≡ false
        → (auth_user (daemon settings) username password (j, v)).1.1 ≡ v
    login_keeps refuses =
        let answer = login_refused (settings j) username password v login.user login.pass refuses in
        rw (after_login (codes "FAIL\n") v answer) refl
