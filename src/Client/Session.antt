-- ===== src/Client/Session.antt =====
-- A whole run of user/client/client.cpp, and what the daemon of user/daemon/daemon.cpp answers to it.
use kvstore_lkm.Prelude.{
  ℕ, zero, suc, ◌<◌, ◌≤◌, ◌≡◌, refl, ap, ◌∙◌, true, none, some, Option, List, [], ◌∷◌, ◌++◌, arith,
  codes, length, take, pos,
}
use mathlib.Core.List.{map}
use kvstore_lkm.Text.{c_string, decimal}
use kvstore_lkm.Message.{Cmd, kv_insert, kv_delete, kv_get, kv_update, kv_snapshot, kv_count, other}
use kvstore_lkm.Hash.Chain.{Chain}
use kvstore_lkm.Hash.Table.{Hashing, IsValid}
use kvstore_lkm.Hash.View.{contents}
use kvstore_lkm.Device.RoundTrip.{IsLucky}
use kvstore_lkm.Device.Values.{IsShort}
use kvstore_lkm.Daemon.Auth.{authenticate}
use kvstore_lkm.Daemon.Command.{Server, Setting}
use kvstore_lkm.Daemon.Session.{Round, bytes, handle_client}
use kvstore_lkm.Daemon.Protocol.{Order, line_of, written, promised_all, IsOrder}
use kvstore_lkm.Daemon.Protocol.Session.{AllDeliver, Follows}
use kvstore_lkm.Client.Connection.{IsLogin, LogsIn, connection-Follows}
use kvstore_lkm.Client.{
  begins, contains, auth_message, Attempt, auth_user, cli_menu, Start, daemon_ip, run_client, main,
}

-- What the user types for a command on a key.
abbrev pub typed : Cmd → ℕ → Option (List ℕ) → List (List ℕ)
typed kv_insert n (some text) = codes "1" ∷ decimal n ∷ text ∷ []
typed kv_update n (some text) = codes "2" ∷ decimal n ∷ text ∷ []
typed kv_get n none = codes "3" ∷ decimal n ∷ []
typed kv_delete n none = codes "4" ∷ decimal n ∷ []
typed _ n _ = []

abbrev pub typed_all : List Order → List (List ℕ)
typed_all [] = codes "6" ∷ []
typed_all (o ∷ os) = typed o.cmd o.key o.value ++ typed_all os

-- The menu has a choice for it.
abbrev pub IsChoice : Cmd → Option (List ℕ) → Type 0
IsChoice kv_insert (some text) = Unit
IsChoice kv_update (some text) = Unit
IsChoice kv_get none = Unit
IsChoice kv_delete none = Unit
IsChoice _ _ = ⊥

abbrev pub AllChoices : List Order → Type 0
AllChoices [] = Unit
AllChoices (o ∷ os) = IsChoice o.cmd o.value × AllChoices os

one_choice :
    (rounds : ℕ) (cmd : Cmd) (n : ℕ) (value : Option (List ℕ)) (rest : List (List ℕ))
    → IsChoice cmd value
    → cli_menu (suc rounds) (typed cmd n value ++ rest)
      ≡ (line_of cmd n value ∷ (cli_menu rounds rest).0, (cli_menu rounds rest).1)
unfolding cli_menu
one_choice rounds kv_insert n (some text) rest h = refl
one_choice rounds kv_insert n none rest h = absurd h
one_choice rounds kv_update n (some text) rest h = refl
one_choice rounds kv_update n none rest h = absurd h
one_choice rounds kv_get n none rest h = refl
one_choice rounds kv_get n (some text) rest h = absurd h
one_choice rounds kv_delete n none rest h = refl
one_choice rounds kv_delete n (some text) rest h = absurd h
one_choice rounds kv_snapshot n value rest h = absurd h
one_choice rounds kv_count n value rest h = absurd h
one_choice rounds (other m) n value rest h = absurd h

-- The menu sends the commands in order, and ends.
menu_sends :
    (os : List Order) (rounds : ℕ)
    → length os < rounds
    → AllChoices os
    → cli_menu rounds (typed_all os) ≡ (map written os, true)
menu_sends os zero h all = absurd (omega (arith, h))
menu_sends [] (suc rounds) h all = unfold cli_menu in refl
menu_sends (o ∷ os) (suc rounds) h (now, later) =
    rw
      (
        one_choice rounds o.cmd o.key o.value (typed_all os) now,
        menu_sends os rounds (omega (arith, h)) later,
      )
      refl

-- A run in which the calls succeed, the first login is answered by OK, and the user types these
-- commands and leaves.
pub record Plays (username password : List ℕ) (os : List Order) (start : Start) : Type 0 where
  pub address : List ℕ
  pub known : daemon_ip start.arguments ≡ some address
  pub socket : start.socket_ok ≡ true
  pub valid : start.address_ok address ≡ true
  pub connected : start.connect_ok ≡ true
  pub login :
      start.attempts
      ≡ record {
        username = username;
        password = password;
        send_ok = true;
        response = some (codes "OK\n");
      }
        ∷ []
  pub lines : start.lines ≡ typed_all os
  pub choices : AllChoices os

login_sends :
    (username password : List ℕ)
    → auth_user (
        record {
          username = username;
          password = password;
          send_ok = true;
          response = some (codes "OK\n");
        }
        ∷ [])
      ≡ (auth_message username password ∷ [], some (pos 0))
login_sends username password = unfold auth_user contains begins c_string take in refl

run_client_lem :
    (attempts : List Attempt) (rounds : ℕ) (lines sent texts : List (List ℕ))
    → auth_user attempts ≡ (sent, some (pos 0))
    → cli_menu rounds lines ≡ (texts, true)
    → run_client attempts rounds lines ≡ (some 0, sent ++ texts)
run_client_lem attempts rounds lines sent texts login menu =
    unfold run_client in rw (login, menu, run_client) (rw login refl)

main_sends :
    (username password : List ℕ) (os : List Order) (start : Start) (rounds : ℕ)
    → Plays username password os start
    → length os < rounds
    → main start rounds ≡ (some 0, auth_message username password ∷ map written os)
main_sends username password os start rounds p h =
    let login = ap auth_user p.login ∙ login_sends username password in
    let menu = ap (cli_menu rounds) p.lines ∙ menu_sends os rounds h p.choices in
    let play =
      run_client_lem start.attempts rounds start.lines (auth_message username password ∷ [])
        (map written os) login menu in
    unfold main in rw (p.known, main, p.socket, p.valid, p.connected) play

-- The rounds of `handle_client` that read these texts.
abbrev pub rounds_of : (ℕ → Setting) → ℕ → List (List ℕ) → List Round
rounds_of settings i [] = []
rounds_of settings i (text ∷ texts) =
    record { read = bytes text; setting = settings i; write_ok = true }
    ∷ rounds_of settings (suc i) texts

-- Each command is one that the daemon takes, and fits its buffer.
abbrev pub AllFit : List Order → Type 0
AllFit [] = Unit
AllFit (o ∷ os) = IsOrder o × (length (written o) ≤ 1023) × AllFit os

written-AllDeliver :
    (settings : ℕ → Setting) (i : ℕ) (os : List Order)
    → ((j : ℕ) → IsLucky (settings j).env)
    → AllFit os
    → AllDeliver os (rounds_of settings i (map written os))
written-AllDeliver settings i [] lucky fit = tt
written-AllDeliver settings i (o ∷ os) lucky fit = (
  record { order = fit.0; fits = fit.1; read = refl; lucky = lucky i; write = refl },
  written-AllDeliver settings (suc i) os lucky (fit.2),
)

module _ ⦃hashing : Hashing⦄ where
  -- If the client gets its connection, the first login is answered by OK, and the user types
  -- choices of Insert, Update, Get and Delete with keys as decimal digits and values where the menu
  -- asks for one, and then 6, and the menu is given more rounds than there are choices, then the
  -- client exits with code 0. If the daemon reads each text that the client sent in one read of at
  -- most 1023 bytes, as a login that PAM accepts of words with no space and no NUL, and commands on
  -- 64-bit keys with the values that they need, of texts with no NUL and no newline, on a valid
  -- table of values shorter than 64 bytes, with calls of the device and writes that succeed, then
  -- it answers OK and the promised texts, and leaves a valid table that holds the promised map.
  pub client_session :
      {others : ℕ} {bs : List Chain} (username password : List ℕ) (os : List Order) (start : Start)
      (rounds : ℕ) (settings : ℕ → Setting) (v : Server)
      → Plays username password os start
      → length os < rounds
      → IsLogin username password
      → AllFit os
      → ((j : ℕ) → IsLucky (settings j).env)
      → authenticate (settings 0).pam username password ≡ true
      → IsValid others v.kernel bs
      → IsShort (contents v.kernel)
      → ((main start rounds).0 ≡ some 0)
        × Follows others
            (handle_client (rounds_of settings 0 (main start rounds).1) v)
            (let (texts, g) = promised_all os (contents v.kernel) in (codes "OK\n" ∷ texts, g))
  client_session username password os start rounds settings v plays h login fit lucky accepts valid
        short =
      let sends = main_sends username password os start rounds plays h in
      let line = auth_message username password in
      let first : Round = record { read = bytes line; setting = settings 0; write_ok = true } in
      let logs_in : LogsIn username password first = record {
        user = login.user;
        pass = login.pass;
        fits = login.fits;
        read = refl;
        accepts = accepts;
        write = refl;
      } in
      rw sends (
        refl,
        connection-Follows username password first os (rounds_of settings 1 (map written os)) v
            valid short logs_in (written-AllDeliver settings 1 os lucky fit),
      )
