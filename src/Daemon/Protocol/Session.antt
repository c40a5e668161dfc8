-- ===== src/Daemon/Protocol/Session.antt =====
-- A whole connection of `handle_client` of user/daemon/daemon.cpp against the protocol.
use kvstore_lkm.Prelude.{
  ℕ, ◌≡◌, ◌≤◌, refl, ap, ◌∙◌, true, none, some, Option, List, [], ◌∷◌, ◌++◌, arith, take, take_all,
  length,
}
use kvstore_lkm.Text.{c_string, NoNul, decimal, c_string_self, NoNul-append}
use kvstore_lkm.Message.{Cmd, kv_insert, kv_delete, kv_get, kv_update, kv_snapshot, kv_count, other}
use kvstore_lkm.Hash.Table.{Hashing}
use kvstore_lkm.Hash.View.{Contents}
use kvstore_lkm.Device.RoundTrip.{IsLucky}
use kvstore_lkm.Daemon.Key.Parse.{AllDigits-NoNul, decimal-AllDigits}
use kvstore_lkm.Daemon.Command.{Server, parse_and_handle_command}
use kvstore_lkm.Daemon.Command.Dispatch.{name_of}
use kvstore_lkm.Daemon.Session.{Round, bytes, Ended, waiting, handle_client}
use kvstore_lkm.Daemon.Protocol.{Order, line_of, written, value_of, promised_all, IsOrder}
use kvstore_lkm.Daemon.Protocol.Answers.{Holds, command-Obeys}

name_of-NoNul : (cmd : Cmd) → NoNul (name_of cmd)
name_of-NoNul kv_insert = ground arith
name_of-NoNul kv_update = ground arith
name_of-NoNul kv_get = ground arith
name_of-NoNul kv_delete = ground arith
name_of-NoNul kv_snapshot = tt
name_of-NoNul kv_count = tt
name_of-NoNul (other n) = tt

pub decimal-NoNul : (n : ℕ) → NoNul (decimal n)
decimal-NoNul n = AllDigits-NoNul (decimal n) (decimal-AllDigits n)

line_of-NoNul :
    (cmd : Cmd) (n : ℕ) (value : Option (List ℕ))
    → NoNul (value_of value)
    → NoNul (line_of cmd n value)
line_of-NoNul cmd n none h =
    NoNul-append (name_of cmd) (32 ∷ decimal n) (name_of-NoNul cmd) (omega arith, decimal-NoNul n)
line_of-NoNul cmd n (some text) h =
    NoNul-append (name_of cmd) (32 ∷ (decimal n ++ (32 ∷ text))) (name_of-NoNul cmd)
      (omega arith, NoNul-append (decimal n) (32 ∷ text) (decimal-NoNul n) (omega arith, h))

-- What fits the buffer is received as it was sent.
pub received :
    (o : Order)
    → IsOrder o
    → length (written o) ≤ 1023
    → c_string (take 1023 (written o)) ≡ written o
received o order fits =
    ap c_string (take_all 1023 (written o) fits)
    ∙ c_string_self (written o) (line_of-NoNul o.cmd o.key o.value order.text)

-- The round reads the command whole, its calls of the device succeed, and so does the write.
pub record Delivers (o : Order) (r : Round) : Type 0 where
  pub order : IsOrder o
  pub fits : length (written o) ≤ 1023
  pub read : r.read ≡ bytes (written o)
  pub lucky : IsLucky r.setting.env
  pub write : r.write_ok ≡ true

abbrev pub AllDeliver : List Order → List Round → Type 0
AllDeliver [] [] = Unit
AllDeliver [] (r ∷ rs) = ⊥
AllDeliver (o ∷ os) [] = ⊥
AllDeliver (o ∷ os) (r ∷ rs) = Delivers o r × AllDeliver os rs

module _ ⦃hashing : Hashing⦄ where
  -- The responses are the promised ones, the connection is still open, and the map is the promised one.
  pub record Follows (others : ℕ) (r : List (List ℕ) × Ended × Server)
      (s : List (List ℕ) × Contents) : Type 0 where
    pub responses : r.0 ≡ s.0
    pub ended : r.1 ≡ waiting
    pub holds : Holds others s.1 r.2

  pub round_run :
      (r : Round) (rs : List Round) (v : Server) (line : List ℕ)
      → r.read ≡ bytes line
      → c_string (take 1023 line) ≡ line
      → r.write_ok ≡ true
      → handle_client (r ∷ rs) v ≡ (
          let (response, v') = parse_and_handle_command r.setting line v in
          let (responses, ended, v'') = handle_client rs v' in (response ∷ responses, ended, v''))
  round_run r rs v line read whole write =
      unfold handle_client in rw (read, handle_client, whole, write)

  -- session
  pub session-Follows :
      {others : ℕ} (os : List Order) (rs : List Round) {f : Contents} {v : Server}
      → Holds others f v
      → AllDeliver os rs
      → Follows others (handle_client rs v) (promised_all os f)
  unfolding handle_client
  session-Follows [] [] h all = record { responses = refl; ended = refl; holds = h }
  session-Follows [] (r ∷ rs) h all = absurd all
  session-Follows (o ∷ os) [] h all = absurd all
  session-Follows (o ∷ os) (r ∷ rs) {v = v} h (now, later) =
      let obeys = command-Obeys r.setting o h now.lucky now.order in
      let rest = session-Follows os rs obeys.holds later in
      rw (round_run r rs v (written o) now.read (received o now.order now.fits) now.write) (record {
        responses = λ i. obeys.text i ∷ rest.responses i;
        ended = rest.ended;
        holds = rest.holds;
      })
