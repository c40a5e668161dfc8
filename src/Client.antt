-- ===== src/Client.antt =====
-- user/client/client.cpp: the login and the menu, over the lines that the user types.
pub mod Login
pub mod Connection
pub mod Session
use kvstore_lkm.Prelude.{
  ℕ, zero, suc, Bool, true, false, not, ◌||◌, ◌&&◌, Option, none, some, List, [], ◌∷◌, ◌++◌, ◌==◌,
  if◌then◌else◌, codes, text_eq, take, ℤ, pos, negsuc, eq_nat,
}
use kvstore_lkm.Text.{c_string}

-- `s` begins with the text.
unfoldable pub begins : List ℕ → List ℕ → Bool
begins [] s = true
begins (c ∷ text) [] = false
begins (c ∷ text) (d ∷ s) = c == d && begins text s

-- `s.find(text) != npos`
unfoldable pub contains : List ℕ → List ℕ → Bool
unfolding begins
contains text [] = begins text []
contains text (d ∷ s) = begins text (d ∷ s) || contains text s

abbrev pub auth_message : List ℕ → List ℕ → List ℕ
auth_message username password = codes "AUTH " ++ (username ++ (32 ∷ password))

-- The test of the response: at most 127 bytes of it, as a C string.
unfoldable pub accepted : List ℕ → Bool
unfolding contains take c_string
accepted response = contains (codes "OK") (c_string (take 127 response))

-- One round of the login: what the user types, whether `send` works, and what `read` gives; `none`
-- stands for an end or an error.
pub record Attempt : Type 0 where
  pub username : List ℕ
  pub password : List ℕ
  pub send_ok : Bool
  pub response : Option (List ℕ)

-- What was sent, and what `auth_user` returned; `none` means that it still asks.
unfoldable pub auth_user : List Attempt → List (List ℕ) × Option ℤ
unfolding accepted
auth_user [] = ([], none)
auth_user (a ∷ attempts) =
    let msg = auth_message a.username a.password in
    let (later, result) = auth_user attempts in
    if not a.send_ok then ([], some (negsuc 0)) else elim a.response [
      | none ↦ (msg ∷ [], some (negsuc 0))
      | some text ↦ if accepted text then (msg ∷ [], some (pos 0)) else (msg ∷ later, result)
    ]

-- `getline`: the next line that the user types, and the empty line once the input is at its end.
abbrev pub next_line : List (List ℕ) → List ℕ × List (List ℕ)
next_line [] = ([], [])
next_line (line ∷ lines) = (line, lines)

-- What a choice asks for: nothing more, a key and a value, a key, or a command as it stands.
pub data Choice : Type 0 where
  leave invalid : Choice
  key_and_value : List ℕ → Choice
  key_only : List ℕ → Choice
  bare : List ℕ → Choice

unfoldable pub choice_of : List ℕ → Choice
unfolding text_eq
choice_of choice =
    if text_eq choice (codes "6") || text_eq choice (codes "exit")
    then leave
    else if text_eq choice (codes "1")
    then key_and_value (codes "KV_INSERT ")
    else if text_eq choice (codes "2")
    then key_and_value (codes "KV_UPDATE ")
    else if text_eq choice (codes "3")
    then key_only (codes "KV_GET ")
    else if text_eq choice (codes "4")
    then key_only (codes "KV_DELETE ")
    else if text_eq choice (codes "5")
    then bare (codes "KV_SNAPSHOT")
    else invalid

-- The commands sent in the first `rounds` rounds of the menu, and whether it has ended.
unfoldable pub cli_menu : ℕ → List (List ℕ) → List (List ℕ) × Bool
unfolding choice_of
cli_menu zero lines = ([], false)
cli_menu (suc rounds) lines =
    let (choice, lines₁) = next_line lines in
    let (first, lines₂) = next_line lines₁ in
    let (second, lines₃) = next_line lines₂ in
    let asked_two = cli_menu rounds lines₃ in
    let asked_one = cli_menu rounds lines₂ in
    let asked_none = cli_menu rounds lines₁ in
    elim (choice_of choice) [
      | leave ↦ ([], true)
      | invalid ↦ asked_none
      | key_and_value text ↦ ((text ++ (first ++ (32 ∷ second))) ∷ asked_two.0, asked_two.1)
      | key_only text ↦ ((text ++ first) ∷ asked_one.0, asked_one.1)
      | bare text ↦ (text ∷ asked_none.0, asked_none.1)
    ]

-- What `read` gives after a command: bytes (at least one), the end, or an error.
pub data Received : Type 0 where
  bytes : List ℕ → Received
  closed failed : Received

-- What is printed for it: at most 1023 bytes, as a C string, in white; an error goes to `stderr`.
unfoldable pub send_command : Received → List ℕ
unfolding c_string take
send_command (bytes text) =
    10 ∷ 27 ∷ (codes "[1;37m" ++ (c_string (take 1023 text) ++ (27 ∷ codes "[0m")))
send_command closed = codes "Server closed connection\n"
send_command failed = []

-- A run of the client: its arguments, what the operating system answers, and what the user types.
pub record Start : Type 0 where
  pub arguments : List (List ℕ)
  pub socket_ok : Bool
  pub address_ok : List ℕ → Bool
  pub connect_ok : Bool
  pub attempts : List Attempt
  pub lines : List (List ℕ)

-- The address of the daemon; two arguments are too many.
abbrev pub daemon_ip : List (List ℕ) → Option (List ℕ)
daemon_ip [] = some (codes "127.0.0.1")
daemon_ip (ip ∷ []) = some ip
daemon_ip (ip ∷ more ∷ rest) = none

-- From the login on; the menu runs for so many rounds at most.
unfoldable pub run_client : List Attempt → ℕ → List (List ℕ) → Option ℕ × List (List ℕ)
unfolding auth_user cli_menu
run_client attempts rounds lines =
    let (sent, result) = auth_user attempts in
    let (texts, ended) = cli_menu rounds lines in
    elim result [
      | none ↦ (none, sent)
      | some code ↦
          if eq_nat code 0 then (if ended then some 0 else none, sent ++ texts) else (some 0, sent)
    ]

-- The exit code (`none`: it still runs), and what was sent.
unfoldable pub main : Start → ℕ → Option ℕ × List (List ℕ)
main start rounds = elim (daemon_ip start.arguments) [
  | none ↦ (some 1, [])
  | some ip ↦
      if not start.socket_ok
      then (some 1, [])
      else if not (start.address_ok ip)
      then (some 1, [])
      else if not start.connect_ok
      then (some 1, [])
      else run_client start.attempts rounds start.lines
]
