-- ===== src/Tests/Client.antt =====
-- The client of user/client at small inputs.
use kvstore_lkm.Prelude.{
  ℕ, length-append, List, none, some, ◌≡◌, refl, true, false, [], ◌∷◌, codes, arith,
}
use kvstore_lkm.Text.{decimal}
use kvstore_lkm.Message.{kv_get, kv_update}
use kvstore_lkm.Hash.View.{contents}
use kvstore_lkm.Daemon.Command.{parse_and_handle_command}
use kvstore_lkm.Daemon.Command.Dispatch.{text_of, bare_text_of}
use kvstore_lkm.Daemon.Session.{Round, bytes, handle_client}
use kvstore_lkm.Daemon.Protocol.{Order, promised_all}
use kvstore_lkm.Daemon.Protocol.Session.{Delivers, Follows}
use kvstore_lkm.Client.{auth_message, accepted, Start, main}
use kvstore_lkm.Client.Session.{typed_all, Plays, rounds_of, client_session}
use kvstore_lkm.Client.Login.{login-agrees}
use kvstore_lkm.Client.Connection.{LogsIn, connection-Follows}
use kvstore_lkm.Benchmark.Texts.{length-decimal}
use kvstore_lkm.Tests.World.{
  low_bits, one, one-IsValid, one-IsShort, calm-IsLucky, setting, open_setting, open_accepts,
  server,
}

login-agrees_example :
    accepted
      (parse_and_handle_command setting (auth_message (codes "ann") (codes "pw")) (server false)).0
    ≡ (parse_and_handle_command setting
        (auth_message (codes "ann") (codes "pw"))
        (server false)).1.authenticated
login-agrees_example = login-agrees setting (codes "ann") (codes "pw") (server false) refl

abbrev read_round : List ℕ → Round
read_round text = record { read = bytes text; setting = open_setting; write_ok = true }

abbrev orders : List Order
orders =
    record { cmd = kv_update; key = 3; value = some (codes "a b") }
    ∷ record { cmd = kv_get; key = 3; value = none }
    ∷ []

-- Their texts.
update_round-Delivers :
    Delivers
      (record { cmd = kv_update; key = 3; value = some (codes "a b") })
      (read_round (text_of (codes "KV_UPDATE") (decimal 3) (codes "a b")))
update_round-Delivers = record {
  order = record { in_range = omega arith; has_value = (tt, ground arith); text = ground arith };
  fits = omega (arith, length-decimal 3, length-append (decimal 3) (32 ∷ codes "a b"));
  read = refl;
  lucky = calm-IsLucky;
  write = refl;
}

get_round-Delivers :
    Delivers
      (record { cmd = kv_get; key = 3; value = none })
      (read_round (bare_text_of (codes "KV_GET") (decimal 3)))
get_round-Delivers = record {
  order = record { in_range = omega arith; has_value = tt; text = tt };
  fits = omega (arith, length-decimal 3);
  read = refl;
  lucky = calm-IsLucky;
  write = refl;
}

login_round-LogsIn :
    LogsIn (codes "ann") (codes "pw") (read_round (auth_message (codes "ann") (codes "pw")))
login_round-LogsIn = record {
  user = (ground arith, ground arith);
  pass = (ground arith, ground arith);
  fits = omega arith;
  read = refl;
  accepts = open_accepts;
  write = refl;
}

connection-Follows_example :
    Follows 5
      (handle_client
        (read_round (auth_message (codes "ann") (codes "pw"))
          ∷ read_round (text_of (codes "KV_UPDATE") (decimal 3) (codes "a b"))
          ∷ read_round (bare_text_of (codes "KV_GET") (decimal 3))
          ∷ [])
        (server false))
      (let (texts, g) = promised_all orders (contents one) in (codes "OK\n" ∷ texts, g))
connection-Follows_example =
    connection-Follows (codes "ann") (codes "pw")
      (read_round (auth_message (codes "ann") (codes "pw"))) orders
      (read_round (text_of (codes "KV_UPDATE") (decimal 3) (codes "a b"))
        ∷ read_round (bare_text_of (codes "KV_GET") (decimal 3))
        ∷ [])
      (server false) one-IsValid one-IsShort login_round-LogsIn
      (update_round-Delivers, (get_round-Delivers, tt))

abbrev start : Start
start = record {
  arguments = [];
  socket_ok = true;
  address_ok = λ ip. true;
  connect_ok = true;
  attempts =
      record {
        username = codes "ann";
        password = codes "pw";
        send_ok = true;
        response = some (codes "OK\n");
      }
      ∷ [];
  lines = typed_all orders;
}

start-Plays : Plays (codes "ann") (codes "pw") orders start
start-Plays = record {
  address = codes "127.0.0.1";
  known = refl;
  socket = refl;
  valid = refl;
  connected = refl;
  login = refl;
  lines = refl;
  choices = (tt, (tt, tt));
}

client_session_example :
    ((main start 5).0 ≡ some 0)
    × Follows 5
        (handle_client (rounds_of (λ i. open_setting) 0 (main start 5).1) (server false))
        (let (texts, g) = promised_all orders (contents one) in (codes "OK\n" ∷ texts, g))
client_session_example =
    client_session (codes "ann") (codes "pw") orders start 5 (λ i. open_setting) (server false)
      start-Plays (omega arith)
      (record {
        user = (ground arith, ground arith);
        pass = (ground arith, ground arith);
        fits = omega arith;
      })
      (
        update_round-Delivers.order,
        update_round-Delivers.fits,
        (get_round-Delivers.order, get_round-Delivers.fits, tt),
      )
      (λ j. calm-IsLucky) open_accepts one-IsValid one-IsShort
