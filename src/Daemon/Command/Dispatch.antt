-- ===== src/Daemon/Command/Dispatch.antt =====
-- How user/daemon/daemon.cpp takes a command apart: the operation, the key and the rest of the line.
use kvstore_lkm.Prelude.{
  ℕ, ◌≡◌, refl, ◌∙◌, true, false, some, List, [], ◌∷◌, ◌++◌, arith, codes, text_eq,
}
use mathlib.Core.List.{append-nil}
use kvstore_lkm.Text.{decimal}
use kvstore_lkm.Message.{Cmd, kv_insert, kv_delete, kv_get, kv_update, kv_snapshot, kv_count, other}
use kvstore_lkm.Hash.Table.{Hashing}
use kvstore_lkm.Daemon.Words.{is_space, read_word, get_line}
use kvstore_lkm.Daemon.Words.Read.{
  NoSpaces, EndsWord, NoNewline, read_word-append, read_word_space, get_line_all,
}
use kvstore_lkm.Daemon.Key.{is_digit, starts_with_digit}
use kvstore_lkm.Daemon.Key.Parse.{AllDigits, decimal-AllDigits, decimal_starts}
use kvstore_lkm.Daemon.Operation.{do_kv_operation}
use kvstore_lkm.Daemon.Command.{
  Server, Setting, drop_space, choose, run, do_keyed, parse_and_handle_command,
}

-- The command for an operation on a key, as the client writes it.
abbrev pub text_of : List ℕ → List ℕ → List ℕ → List ℕ
text_of operation key value = operation ++ (32 ∷ (key ++ (32 ∷ value)))

abbrev pub name_of : Cmd → List ℕ
name_of kv_insert = codes "KV_INSERT"
name_of kv_update = codes "KV_UPDATE"
name_of kv_get = codes "KV_GET"
name_of kv_delete = codes "KV_DELETE"
name_of _ = []

-- A command on a key, with a value if it needs one.
abbrev pub IsKeyed : Cmd → List ℕ → Type 0
IsKeyed kv_insert (c ∷ s) = Unit
IsKeyed kv_update (c ∷ s) = Unit
IsKeyed kv_get s = Unit
IsKeyed kv_delete s = Unit
IsKeyed _ _ = ⊥

-- The same with nothing behind the key.
abbrev pub bare_text_of : List ℕ → List ℕ → List ℕ
bare_text_of operation key = operation ++ (32 ∷ key)

abbrev pub NeedsNoValue : Cmd → Type 0
NeedsNoValue kv_get = Unit
NeedsNoValue kv_delete = Unit
NeedsNoValue _ = ⊥

digit-is_space : (c : ℕ) → is_digit c ≡ true → is_space c ≡ false
digit-is_space c h = ground arith

AllDigits-NoSpaces : (s : List ℕ) → AllDigits s → NoSpaces s
AllDigits-NoSpaces [] h = tt
AllDigits-NoSpaces (c ∷ s) h = (digit-is_space c (h.0), AllDigits-NoSpaces s h.1)

-- The key is read as it stands, up to the space behind it.
pub read_key :
    (s rest : List ℕ)
    → AllDigits s
    → starts_with_digit s ≡ true
    → EndsWord rest
    → read_word (32 ∷ s ++ rest) ≡ some (s, rest)
read_key [] rest h starts e = ground (arith, starts)
read_key (c ∷ s) rest h starts e =
    read_word_space (c ∷ s ++ rest) ∙ read_word-append c s rest (AllDigits-NoSpaces (c ∷ s) h) e

module _ ⦃hashing : Hashing⦄ where
  abbrev pub answered_by : Setting → Cmd → List ℕ → List ℕ → Server → List ℕ × Server
  answered_by set cmd key value v =
      let (text, k) = do_kv_operation set.env set.number cmd key value v.kernel in
      (text, record v { kernel = k })

  do_keyed-run :
      (set : Setting) (operation : List ℕ) (cmd : Cmd) (n : ℕ) (tail line : List ℕ) (v : Server)
      → EndsWord tail
      → get_line tail ≡ line
      → choose operation (drop_space line) ≡ run cmd
      → do_keyed set operation (32 ∷ decimal n ++ tail) v
        ≡ answered_by set cmd (decimal n) (drop_space line) v
  do_keyed-run set operation cmd n tail line v ends rest chosen =
      let key = read_key (decimal n) tail (decimal-AllDigits n) (decimal_starts n) ends in
      unfold do_keyed in rw (key, rest, chosen, do_keyed) (rw rest)

  pub parse_word :
      (set : Setting) (s operation rest : List ℕ) (v : Server)
      → read_word s ≡ some (operation, rest)
      → text_eq operation (codes "AUTH") ≡ false
      → text_eq operation (codes "KV_SNAPSHOT") ≡ false
      → v.authenticated ≡ true
      → parse_and_handle_command set s v ≡ do_keyed set operation rest v
  parse_word set s operation rest v word no_auth no_snapshot authed =
      unfold parse_and_handle_command in
      rw (word, parse_and_handle_command, no_auth, no_snapshot, authed)

  parse-run :
      (set : Setting) (c : ℕ) (w : List ℕ) (cmd : Cmd) (n : ℕ) (tail line : List ℕ) (v : Server)
      → NoSpaces (c ∷ w)
      → text_eq (c ∷ w) (codes "AUTH") ≡ false
      → text_eq (c ∷ w) (codes "KV_SNAPSHOT") ≡ false
      → EndsWord tail
      → get_line tail ≡ line
      → choose (c ∷ w) (drop_space line) ≡ run cmd
      → v.authenticated ≡ true
      → parse_and_handle_command set (c ∷ w ++ (32 ∷ (decimal n ++ tail))) v
        ≡ answered_by set cmd (decimal n) (drop_space line) v
  parse-run set c w cmd n tail line v whole no_auth no_snapshot ends read chosen authed =
      let rest = 32 ∷ decimal n ++ tail in
      let word : read_word (c ∷ (w ++ rest)) ≡ some (c ∷ w, rest) =
        read_word-append c w rest whole refl in
      parse_word set (c ∷ (w ++ rest)) (c ∷ w) rest v word no_auth no_snapshot authed
      ∙ do_keyed-run set (c ∷ w) cmd n tail line v ends read chosen

  valued-run :
      (set : Setting) (c : ℕ) (w : List ℕ) (cmd : Cmd) (n : ℕ) (value : List ℕ) (v : Server)
      → NoSpaces (c ∷ w)
      → text_eq (c ∷ w) (codes "AUTH") ≡ false
      → text_eq (c ∷ w) (codes "KV_SNAPSHOT") ≡ false
      → choose (c ∷ w) value ≡ run cmd
      → NoNewline value
      → v.authenticated ≡ true
      → parse_and_handle_command set (text_of (c ∷ w) (decimal n) value) v
        ≡ answered_by set cmd (decimal n) value v
  valued-run set c w cmd n value v whole no_auth no_snapshot chosen line authed =
      parse-run set c w cmd n (32 ∷ value) (32 ∷ value) v whole no_auth no_snapshot refl
        (get_line_all (32 ∷ value) ((λ e. absurd (omega (arith, e))), line)) chosen authed

  -- Over an authenticated connection, the text of a KV_INSERT, KV_UPDATE, KV_GET or KV_DELETE with
  -- the decimal digits of a number as its key and a value with no newline, which the first two
  -- need, runs that operation with that key and that value.
  pub parse-dispatches :
      (set : Setting) (cmd : Cmd) (n : ℕ) (value : List ℕ) (v : Server)
      → IsKeyed cmd value
      → NoNewline value
      → v.authenticated ≡ true
      → parse_and_handle_command set (text_of (name_of cmd) (decimal n) value) v
        ≡ answered_by set cmd (decimal n) value v
  unfolding text_eq choose
  parse-dispatches set kv_insert n (c ∷ s) v keyed line authed =
      valued-run set b'K' (codes "V_INSERT") kv_insert n (c ∷ s) v (ground arith) refl refl refl
        line authed
  parse-dispatches set kv_update n (c ∷ s) v keyed line authed =
      valued-run set b'K' (codes "V_UPDATE") kv_update n (c ∷ s) v (ground arith) refl refl refl
        line authed
  parse-dispatches set kv_get n value v keyed line authed =
      valued-run set b'K' (codes "V_GET") kv_get n value v (ground arith) refl refl refl line authed
  parse-dispatches set kv_delete n value v keyed line authed =
      valued-run set b'K' (codes "V_DELETE") kv_delete n value v (ground arith) refl refl refl line
        authed
  parse-dispatches set kv_insert n [] v keyed line authed = absurd keyed
  parse-dispatches set kv_update n [] v keyed line authed = absurd keyed
  parse-dispatches set kv_snapshot n value v keyed line authed = absurd keyed
  parse-dispatches set kv_count n value v keyed line authed = absurd keyed
  parse-dispatches set (other m) n value v keyed line authed = absurd keyed

  -- A KV_GET or KV_DELETE with nothing behind its key.
  pub parse-dispatches_bare :
      (set : Setting) (cmd : Cmd) (n : ℕ) (v : Server)
      → NeedsNoValue cmd
      → v.authenticated ≡ true
      → parse_and_handle_command set (bare_text_of (name_of cmd) (decimal n)) v
        ≡ answered_by set cmd (decimal n) [] v
  unfolding text_eq choose get_line
  parse-dispatches_bare set kv_get n v bare authed =
      let run =
        parse-run set b'K' (codes "V_GET") kv_get n [] [] v (ground arith) refl refl tt refl refl
          authed in
      rw append-nil at run
  parse-dispatches_bare set kv_delete n v bare authed =
      let run =
        parse-run set b'K' (codes "V_DELETE") kv_delete n [] [] v (ground arith) refl refl tt refl
          refl authed in
      rw append-nil at run
  parse-dispatches_bare set kv_insert n v bare authed = absurd bare
  parse-dispatches_bare set kv_update n v bare authed = absurd bare
  parse-dispatches_bare set kv_snapshot n v bare authed = absurd bare
  parse-dispatches_bare set kv_count n v bare authed = absurd bare
  parse-dispatches_bare set (other m) n v bare authed = absurd bare
