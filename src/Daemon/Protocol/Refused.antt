-- ===== src/Daemon/Protocol/Refused.antt =====
-- The answer of user/daemon/daemon.cpp to a command on a key over a connection that has not
-- authenticated.
use kvstore_lkm.Prelude.{
  ℕ, ◌≡◌, refl, false, none, some, Option, List, ◌∷◌, ◌++◌, arith, codes, text_eq,
}
use kvstore_lkm.Text.{decimal}
use kvstore_lkm.Message.{Cmd, kv_insert, kv_delete, kv_get, kv_update, kv_snapshot, kv_count, other}
use kvstore_lkm.Hash.Table.{Hashing}
use kvstore_lkm.Daemon.Words.Read.{NoSpaces, read_word-append}
use kvstore_lkm.Daemon.Command.{Server, Setting, parse_and_handle_command}
use kvstore_lkm.Daemon.Command.Dispatch.{name_of}
use kvstore_lkm.Daemon.Protocol.{OnKey, Order, line_of, written, HasValue, IsOrder}
use kvstore_lkm.Daemon.Protocol.Answers.{OnKey-IsKeyed, OnKey-NeedsNoValue}

abbrev pub not_authenticated : List ℕ
not_authenticated = codes "Connection not authenticated!\n"

module _ ⦃hashing : Hashing⦄ where
  word_refused :
      (set : Setting) (c : ℕ) (w rest : List ℕ) (v : Server)
      → NoSpaces (c ∷ w)
      → text_eq (c ∷ w) (codes "AUTH") ≡ false
      → v.authenticated ≡ false
      → parse_and_handle_command set (c ∷ w ++ (32 ∷ rest)) v ≡ (not_authenticated, v)
  word_refused set c w rest v whole no_auth closed =
      let word = read_word-append c w (32 ∷ rest) whole refl in
      unfold parse_and_handle_command in rw (word, parse_and_handle_command, no_auth, closed)

  name_refused :
      (set : Setting) (cmd : Cmd) (rest : List ℕ) (v : Server)
      → OnKey cmd
      → v.authenticated ≡ false
      → parse_and_handle_command set (name_of cmd ++ (32 ∷ rest)) v ≡ (not_authenticated, v)
  unfolding text_eq
  name_refused set kv_insert rest v on closed =
      word_refused set b'K' (codes "V_INSERT") rest v (ground arith) refl closed
  name_refused set kv_update rest v on closed =
      word_refused set b'K' (codes "V_UPDATE") rest v (ground arith) refl closed
  name_refused set kv_get rest v on closed =
      word_refused set b'K' (codes "V_GET") rest v (ground arith) refl closed
  name_refused set kv_delete rest v on closed =
      word_refused set b'K' (codes "V_DELETE") rest v (ground arith) refl closed
  name_refused set kv_snapshot rest v on closed = absurd on
  name_refused set kv_count rest v on closed = absurd on
  name_refused set (other n) rest v on closed = absurd on

  line_refused :
      (set : Setting) (cmd : Cmd) (n : ℕ) (value : Option (List ℕ)) (v : Server)
      → HasValue cmd value
      → v.authenticated ≡ false
      → parse_and_handle_command set (line_of cmd n value) v ≡ (not_authenticated, v)
  line_refused set cmd n none v need closed =
      name_refused set cmd (decimal n) v (OnKey-NeedsNoValue cmd need) closed
  line_refused set cmd n (some text) v need closed =
      name_refused set cmd (decimal n ++ (32 ∷ text)) v (OnKey-IsKeyed cmd text (need.0)) closed

  pub order_refused :
      (set : Setting) (o : Order) (v : Server)
      → IsOrder o
      → v.authenticated ≡ false
      → parse_and_handle_command set (written o) v ≡ (not_authenticated, v)
  order_refused set o v order closed = line_refused set o.cmd o.key o.value v order.has_value closed
