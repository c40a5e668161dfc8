-- ===== src/Benchmark.antt =====
-- benchmark/benchmark.cpp: the connection, the four operations, and the check of a counter's value.
pub mod Texts
pub mod Promise
pub mod Serving
pub mod Login
pub mod Connections
pub mod Baseline
pub mod Check
pub mod Concurrent
pub mod Latency
pub mod Menu
use kvstore_lkm.Prelude.{
  ℕ, ◌+◌, ◌-◌, ◌*◌, ◌^◌, Bool, not, ◌||◌, Option, none, some, List, [], ◌∷◌, ◌++◌, ◌==◌, ltb,
  if◌then◌else◌, codes, length, take, drop, ℤ, pos, negsuc,
}
use kvstore_lkm.Text.{c_string}
use kvstore_lkm.Daemon.Words.{is_space}
use kvstore_lkm.Daemon.Key.{is_digit}
use kvstore_lkm.Client.{begins, contains}

-- What stands at the other end of a socket: `send` of a command and the `read` behind it, as a step
-- of its state. `none` stands for a `send` that fails and for a `read` with no byte.
pub record Peer (S : Type 0) : Type 0 where
  pub exchange : List ℕ → S → Option (List ℕ) × S

-- What the operating system answers to the calls of one connection.
pub record Net : Type 0 where
  pub socket : Option ℕ
  pub address_ok : Bool
  pub connect_ok : Bool

-- The text in a zeroed buffer after a read of at most n bytes.
abbrev pub in_buffer : ℕ → List ℕ → List ℕ
in_buffer n response = c_string (take n response)

module _ {S : Type 0} (peer : Peer S) where
  -- 0 if the response says OK.
  abbrev auth_result : Option (List ℕ) → ℤ
  auth_result none = negsuc 0
  auth_result (some text) = if contains (codes "OK") (in_buffer 127 text) then pos 0 else negsuc 0

  unfoldable pub auth_user : List ℕ → List ℕ → S → ℤ × S
  unfolding contains c_string take
  auth_user username password s =
      let (response, s') = peer.exchange (codes "AUTH " ++ (username ++ (32 ∷ password))) s in
      (auth_result response, s')

  -- The socket or -1, the descriptors that are left open, and the state; what `auth_user` returns
  -- is not tested.
  unfoldable pub setup_connection : Net → List ℕ → List ℕ → S → ℤ × List ℕ × S
  unfolding auth_user
  setup_connection net username password s = elim net.socket [
    | none ↦ (negsuc 0, [], s)
    | some sock ↦
        if not net.address_ok
        then (negsuc 0, sock ∷ [], s)
        else if not net.connect_ok
        then (negsuc 0, sock ∷ [], s)
        else (pos sock, sock ∷ [], (auth_user username password s).1)
  ]

  -- 0 for any response at all.
  abbrev status_of : Option (List ℕ) → ℤ
  status_of none = negsuc 0
  status_of (some text) = pos 0

  unfoldable pub kv_insert : List ℕ → List ℕ → S → ℤ × S
  kv_insert key value s =
      let (response, s') = peer.exchange (codes "KV_INSERT " ++ (key ++ (32 ∷ value))) s in
      (status_of response, s')

  -- The empty text if nothing comes back.
  abbrev text_of_response : Option (List ℕ) → List ℕ
  text_of_response none = []
  text_of_response (some text) = in_buffer 1023 text

  unfoldable pub kv_get : List ℕ → S → List ℕ × S
  unfolding c_string take
  kv_get key s =
      let (response, s') = peer.exchange (codes "KV_GET " ++ key) s in
      (text_of_response response, s')

  unfoldable pub kv_delete : List ℕ → S → ℤ × S
  kv_delete key s =
      let (response, s') = peer.exchange (codes "KV_DELETE " ++ key) s in (status_of response, s')

  unfoldable pub kv_update : List ℕ → List ℕ → S → ℤ × S
  kv_update key value s =
      let (response, s') = peer.exchange (codes "KV_UPDATE " ++ (key ++ (32 ∷ value))) s in
      (status_of response, s')

-- What stands behind the first occurrence of a text.
unfoldable pub behind : List ℕ → List ℕ → Option (List ℕ)
unfolding begins drop
behind text [] = none
behind text (d ∷ s) =
    let later = behind text s in
    if begins text (d ∷ s) then some (drop (length text) (d ∷ s)) else later

unfoldable pub skip_quotes : List ℕ → List ℕ
skip_quotes [] = []
skip_quotes (c ∷ s) = let rest = skip_quotes s in if c == b'"' || is_space c then rest else c ∷ s

-- The answer of `check_value`: false, a value, or an overflow of `long long`, which C++ does not
-- define.
pub data Checked : Type 0 where
  bad overflow : Checked
  good : ℕ → Checked

unfoldable pub read_value : ℕ → List ℕ → Checked
read_value v [] = good v
read_value v (c ∷ s) =
    let v' = v * 10 + (c - 48) in
    let rest = read_value v' s in
    if not (is_digit c) then good v else if ltb v' (2 ^ 63) then rest else overflow

-- From the first byte that is no quote and no space on.
abbrev pub value_at : List ℕ → Checked
value_at [] = bad
value_at (c ∷ s) = if is_digit c then read_value 0 (c ∷ s) else bad

unfoldable pub check_value : List ℕ → Checked
unfolding behind skip_quotes read_value
check_value resp = elim (behind (codes "count:") resp) [
  | none ↦ bad
  | some s ↦ value_at (skip_quotes s)
]
