-- ===== src/Client/Login.antt =====
-- The login of user/client/client.cpp against the AUTH command of user/daemon/daemon.cpp.
use kvstore_lkm.Prelude.{
  ℕ, ◌≡◌, refl, sym, false, some, List, ◌∷◌, ◌++◌, codes, text_eq, take, arith,
}
use kvstore_lkm.Text.{c_string}
use kvstore_lkm.Hash.Table.{Hashing}
use kvstore_lkm.Daemon.Words.{read_word}
use kvstore_lkm.Daemon.Words.Read.{read_word-append}
use kvstore_lkm.Daemon.Auth.{authenticate}
use kvstore_lkm.Daemon.Command.{Server, Setting, do_auth, parse_and_handle_command}
use kvstore_lkm.Daemon.Command.Access.{either, with_word}
use kvstore_lkm.Client.{contains, auth_message, accepted}

do_auth-agrees :
    (set : Setting) (s : List ℕ) (v : Server)
    → v.authenticated ≡ false
    → accepted (do_auth set s v).0 ≡ (do_auth set s v).1.authenticated
unfolding do_auth accepted c_string take contains
do_auth-agrees set s v closed =
    let P = (λ (r : List ℕ × Server). accepted r.0 ≡ r.1.authenticated) in
    with_word P (read_word s) _ _ (sym closed) (λ u.
      with_word P (read_word u.1) _ _ (sym closed)
        (λ p. either P (authenticate set.pam u.0 p.0) _ _ refl (sym closed)))

pub auth_word :
    (rest : List ℕ) → read_word (codes "AUTH" ++ (32 ∷ rest)) ≡ some (codes "AUTH", 32 ∷ rest)
auth_word rest = read_word-append 65 (codes "UTH") (32 ∷ rest) (ground arith) refl

module _ ⦃hashing : Hashing⦄ where
  pub auth_run :
      (set : Setting) (s rest : List ℕ) (v : Server)
      → read_word s ≡ some (codes "AUTH", rest)
      → parse_and_handle_command set s v ≡ do_auth set rest v
  unfolding text_eq
  auth_run set s rest v word =
      unfold parse_and_handle_command in rw (word, parse_and_handle_command)

  -- The client takes itself for logged in exactly if the daemon does: on a connection that has not
  -- authenticated, for any user name and password that the user types (spaces included), the client
  -- accepts the answer of the daemon to its AUTH message exactly if the connection has
  -- authenticated by then.
  pub login-agrees :
      (set : Setting) (username password : List ℕ) (v : Server)
      → v.authenticated ≡ false
      → accepted (parse_and_handle_command set (auth_message username password) v).0
        ≡ (parse_and_handle_command set (auth_message username password) v).1.authenticated
  login-agrees set username password v closed =
      let rest = 32 ∷ (username ++ (32 ∷ password)) in
      let run : parse_and_handle_command set (auth_message username password) v
          ≡ do_auth set rest v =
        auth_run set (auth_message username password) rest v
          (auth_word (username ++ (32 ∷ password))) in
      rw run (do_auth-agrees set rest v closed)
