-- ===== src/Client/Connection.antt =====
-- A connection from its login on: what user/client/client.cpp writes, and what `handle_client` of
-- user/daemon/daemon.cpp answers.
use kvstore_lkm.Prelude.{
  ℕ, ◌≡◌, ◌≤◌, refl, ap, ◌∙◌, true, false, some, List, [], ◌∷◌, ◌++◌, arith, take, take_all, length,
  codes,
}
use mathlib.Core.List.{append-nil}
use kvstore_lkm.Text.{c_string, NoNul, c_string_self, NoNul-append}
use kvstore_lkm.Hash.Chain.{Chain}
use kvstore_lkm.Hash.Table.{Hashing, IsValid}
use kvstore_lkm.Hash.View.{contents}
use kvstore_lkm.Device.Values.{IsShort}
use kvstore_lkm.Daemon.Words.{read_word}
use kvstore_lkm.Daemon.Words.Read.{NoSpaces, read_word-append, read_word_space}
use kvstore_lkm.Daemon.Auth.{authenticate}
use kvstore_lkm.Daemon.Command.{Server, Setting, do_auth, parse_and_handle_command}
use kvstore_lkm.Daemon.Session.{Round, bytes, handle_client}
use kvstore_lkm.Daemon.Protocol.{Order, promised_all}
use kvstore_lkm.Daemon.Protocol.Session.{AllDeliver, Follows, round_run, session-Follows}
use kvstore_lkm.Client.{auth_message}
use kvstore_lkm.Client.Login.{auth_word, auth_run}

-- A user name or a password that the daemon reads as it stands.
abbrev pub IsWord : List ℕ → Type 0
IsWord [] = ⊥
IsWord (c ∷ s) = NoSpaces (c ∷ s) × NoNul (c ∷ s)

-- A user name and a password that reach the daemon as they stand.
pub record IsLogin (username password : List ℕ) : Type 0 where
  pub user : IsWord username
  pub pass : IsWord password
  pub fits : length (auth_message username password) ≤ 1023

IsWord-NoNul : (s : List ℕ) → IsWord s → NoNul s
IsWord-NoNul [] h = tt
IsWord-NoNul (c ∷ s) h = h.1

-- A word is read up to a space, or up to the end.
read_first :
    (s rest : List ℕ) → IsWord s → read_word (32 ∷ (s ++ (32 ∷ rest))) ≡ some (s, 32 ∷ rest)
read_first [] rest h = absurd h
read_first (c ∷ s) rest h =
    read_word_space (c ∷ s ++ (32 ∷ rest)) ∙ read_word-append c s (32 ∷ rest) (h.0) refl

read_last : (s : List ℕ) → IsWord s → read_word (32 ∷ s) ≡ some (s, [])
read_last [] h = absurd h
read_last (c ∷ s) h =
    let run = read_word-append c s [] (h.0) tt in read_word_space (c ∷ s) ∙ rw append-nil at run

do_auth_accepts :
    (set : Setting) (username password : List ℕ) (v : Server)
    → IsWord username
    → IsWord password
    → authenticate set.pam username password ≡ true
    → do_auth set (32 ∷ (username ++ (32 ∷ password))) v
      ≡ (codes "OK\n", record v { authenticated = true })
do_auth_accepts set username password v user pass accepts =
    unfold do_auth in
    rw (read_first username password user, do_auth, read_last password pass, do_auth, accepts)

do_auth_refuses :
    (set : Setting) (username password : List ℕ) (v : Server)
    → IsWord username
    → IsWord password
    → authenticate set.pam username password ≡ false
    → do_auth set (32 ∷ (username ++ (32 ∷ password))) v ≡ (codes "FAIL\n", v)
do_auth_refuses set username password v user pass accepts =
    unfold do_auth in
    rw (read_first username password user, do_auth, read_last password pass, do_auth, accepts)

pub auth_message-NoNul :
    (username password : List ℕ)
    → IsWord username
    → IsWord password
    → NoNul (auth_message username password)
auth_message-NoNul username password user pass =
    NoNul-append (codes "AUTH ") (username ++ (32 ∷ password)) (ground arith) (
      NoNul-append username (32 ∷ password) (IsWord-NoNul username user)
        (omega arith, IsWord-NoNul password pass))

module _ ⦃hashing : Hashing⦄ where
  -- The round reads a login whole, PAM accepts it, and the write succeeds.
  pub record LogsIn (username password : List ℕ) (r : Round) : Type 0 where
    pub user : IsWord username
    pub pass : IsWord password
    pub fits : length (auth_message username password) ≤ 1023
    pub read : r.read ≡ bytes (auth_message username password)
    pub accepts : authenticate r.setting.pam username password ≡ true
    pub write : r.write_ok ≡ true

  pub login_answer :
      (set : Setting) (username password : List ℕ) (v : Server)
      → IsWord username
      → IsWord password
      → authenticate set.pam username password ≡ true
      → parse_and_handle_command set (auth_message username password) v
        ≡ (codes "OK\n", record v { authenticated = true })
  login_answer set username password v user pass accepts =
      auth_run set (auth_message username password) (32 ∷ (username ++ (32 ∷ password))) v
        (auth_word (username ++ (32 ∷ password)))
      ∙ do_auth_accepts set username password v user pass accepts

  pub login_refused :
      (set : Setting) (username password : List ℕ) (v : Server)
      → IsWord username
      → IsWord password
      → authenticate set.pam username password ≡ false
      → parse_and_handle_command set (auth_message username password) v ≡ (codes "FAIL\n", v)
  login_refused set username password v user pass accepts =
      auth_run set (auth_message username password) (32 ∷ (username ++ (32 ∷ password))) v
        (auth_word (username ++ (32 ∷ password)))
      ∙ do_auth_refuses set username password v user pass accepts

  -- A connection to a valid table of values shorter than 64 bytes follows the protocol of texts
  -- over a map (Daemon/Protocol). If it first reads, whole, a login of a user name and a password
  -- of at least one byte each, with no space and no NUL, that PAM accepts, and then, each whole in
  -- at most 1023 bytes, commands on 64-bit keys with the values that they need, of texts with no
  -- NUL and no newline, and the calls of the device and the writes succeed, then it answers OK and
  -- then the promised texts in order, stays open, and leaves a valid table that holds the promised
  -- map, with every value cut to 63 bytes.
  pub connection-Follows :
      {others : ℕ} (username password : List ℕ) (login : Round) (os : List Order) (rs : List Round)
      (v : Server) {bs : List Chain}
      → IsValid others v.kernel bs
      → IsShort (contents v.kernel)
      → LogsIn username password login
      → AllDeliver os rs
      → Follows others
          (handle_client (login ∷ rs) v)
          (let (texts, g) = promised_all os (contents v.kernel) in (codes "OK\n" ∷ texts, g))
  connection-Follows username password login os rs v {bs} valid short logs_in all =
      let line = auth_message username password in
      let whole : c_string (take 1023 line) ≡ line =
        ap c_string (take_all 1023 line logs_in.fits)
        ∙ c_string_self line (auth_message-NoNul username password logs_in.user logs_in.pass) in
      let answer =
        login_answer login.setting username password v logs_in.user logs_in.pass logs_in.accepts in
      let rest =
        session-Follows os rs {f = contents v.kernel} {v = record v { authenticated = true }}
          (record { chains = bs; valid = valid; reads = λ q. refl; short = short; authed = refl })
          all in
      rw (round_run login rs v line logs_in.read whole logs_in.write, answer)
        (record {
          responses = ap (λ texts. codes "OK\n" ∷ texts) rest.responses;
          ended = rest.ended;
          holds = rest.holds;
        })
