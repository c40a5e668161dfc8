-- ===== src/Daemon/Protocol.antt =====
-- The commands on a key of user/daemon/daemon.cpp, as a protocol of texts over a map from keys to
-- texts.
pub mod Meaning
pub mod Answers
pub mod Session
pub mod Refused
use kvstore_lkm.Prelude.{
  ℕ, ◌≡◌, ◌<◌, ◌^◌, Option, none, some, List, [], ◌∷◌, ◌++◌, ℤ, pos, codes, take,
}
use kvstore_lkm.Text.{NoNul, decimal}
use kvstore_lkm.Message.{Cmd, kv_insert, kv_delete, kv_get, kv_update, KvMessage}
use kvstore_lkm.Hash.View.{Contents, update}
use kvstore_lkm.Daemon.Words.Read.{NoNewline}
use kvstore_lkm.Daemon.Command.Dispatch.{name_of, text_of, bare_text_of, IsKeyed, NeedsNoValue}
use kvstore_lkm.Daemon.Operation.{arrow, quoted, call_of, response_to}

-- What a command on a key answers, and the map then.
abbrev pub protocol : Cmd → ℕ → List ℕ → Contents → List ℕ × Contents
protocol kv_insert n text f = elim (f n) [
  | none ↦ (call_of (codes "INSERT") (decimal n) ++ codes " succeeded\n", update f n (some text))
  | some _ ↦
      (call_of (codes "INSERT") (decimal n) ++ codes " failed, key already exists, use update\n", f)
]
protocol kv_update n text f = elim (f n) [
  | none ↦ (call_of (codes "UPDATE") (decimal n) ++ codes " failed (status=1)\n", f)
  | some _ ↦ (call_of (codes "UPDATE") (decimal n) ++ codes " succeeded\n", update f n (some text))
]
protocol kv_get n text f = elim (f n) [
  | none ↦ (call_of (codes "GET") (decimal n) ++ codes " failed: key does not exist\n", f)
  | some v ↦ (call_of (codes "GET") (decimal n) ++ arrow ++ quoted v ++ codes "\n", f)
]
protocol kv_delete n text f = elim (f n) [
  | none ↦ (
    call_of (codes "DELETE") (decimal n) ++ codes " failed: key not found or error (status=1)\n",
    f,
  )
  | some _ ↦ (call_of (codes "DELETE") (decimal n) ++ codes " succeeded\n", update f n none)
]
protocol _ n text f = ([], f)

abbrev pub OnKey : Cmd → Type 0
OnKey kv_insert = Unit
OnKey kv_update = Unit
OnKey kv_get = Unit
OnKey kv_delete = Unit
OnKey _ = ⊥

-- A command on a key that a client sends, with a value or with nothing behind the key.
pub record Order : Type 0 where
  pub cmd : Cmd
  pub key : ℕ
  pub value : Option (List ℕ)

abbrev pub line_of : Cmd → ℕ → Option (List ℕ) → List ℕ
line_of cmd n none = bare_text_of (name_of cmd) (decimal n)
line_of cmd n (some text) = text_of (name_of cmd) (decimal n) text

abbrev pub written : Order → List ℕ
written o = line_of o.cmd o.key o.value

abbrev pub value_of : Option (List ℕ) → List ℕ
value_of none = []
value_of (some text) = text

-- At most 63 bytes of a value are kept.
abbrev pub promised : Order → Contents → List ℕ × Contents
promised o f = protocol o.cmd o.key (take 63 (value_of o.value)) f

abbrev pub promised_all : List Order → Contents → List (List ℕ) × Contents
promised_all [] f = ([], f)
promised_all (o ∷ os) f =
    let (text, g) = promised o f in let (texts, h) = promised_all os g in (text ∷ texts, h)

-- The command has the value that it needs.
abbrev pub HasValue : Cmd → Option (List ℕ) → Type 0
HasValue cmd none = NeedsNoValue cmd
HasValue cmd (some text) = IsKeyed cmd text × NoNewline text

-- A command as the daemon takes it: a 64-bit key, the value that it needs, in one line with no NUL.
pub record IsOrder (o : Order) : Type 0 where
  pub in_range : o.key < 2 ^ 64
  pub has_value : HasValue o.cmd o.value
  pub text : NoNul (value_of o.value)

-- No stored value has a NUL in it.
abbrev pub AllTexts : Contents → Type 0
AllTexts f = (q : ℕ) (v : List ℕ) → f q ≡ some v → NoNul v

-- A call of the device answers 0, its text is the protocol's, and so is the map then.
pub record Says (number : Cmd → ℕ) (cmd : Cmd) (r : ℤ × KvMessage × Contents)
    (s : List ℕ × Contents) : Type 0 where
  pub code : r.0 ≡ pos 0
  pub text : response_to number cmd r.1 ≡ s.0
  pub after : r.2 ≡ s.1
