-- ===== src/Daemon/Protocol/Answers.antt =====
-- The answers of `parse_and_handle_command` of user/daemon/daemon.cpp to the commands on a key.
use kvstore_lkm.Prelude.{
  ℕ, ◌≡◌, ◌<◌, ◌^◌, ap, ◌∙◌, true, Option, none, some, List, [], ◌∷◌, pos, take,
}
use mathlib.Core.Path.{fun_ext, subst}
use kvstore_lkm.Text.{NoNul, decimal}
use kvstore_lkm.Message.{Cmd, kv_insert, kv_delete, kv_get, kv_update, kv_snapshot, kv_count, other}
use kvstore_lkm.Hash.Chain.{Chain}
use kvstore_lkm.Hash.Table.{Hashing, Kernel, IsValid}
use kvstore_lkm.Hash.View.{Contents, contents}
use kvstore_lkm.Hash.Lookup.{NoNul-contents}
use kvstore_lkm.Device.Handlers.{Env}
use kvstore_lkm.Device.Ioctl.{handle_kv_message, kv_ioctl}
use kvstore_lkm.Device.Refine.{spec_message, Answers, message-Answers}
use kvstore_lkm.Device.RoundTrip.{IsLucky}
use kvstore_lkm.Device.Values.{IsShort, operation-IsShort}
use kvstore_lkm.Daemon.Key.{parse_key}
use kvstore_lkm.Daemon.Key.Parse.{parse_key-decimal}
use kvstore_lkm.Daemon.Operation.{outgoing, response_to, do_kv_operation}
use kvstore_lkm.Daemon.Operation.Outgoing.{c_string-outgoing, outgoing-IsTerminated, outgoing_key}
use kvstore_lkm.Daemon.Command.{Server, Setting, parse_and_handle_command}
use kvstore_lkm.Daemon.Command.Dispatch.{
  IsKeyed, NeedsNoValue, answered_by, parse-dispatches, parse-dispatches_bare,
}
use kvstore_lkm.Daemon.Protocol.{
  protocol, OnKey, Order, line_of, written, value_of, promised, HasValue, IsOrder, AllTexts, Says,
}
use kvstore_lkm.Daemon.Protocol.Meaning.{message-Says}

module _ ⦃hashing : Hashing⦄ where
  -- An authenticated connection to a valid table that holds `f`, of values that fit a message.
  pub record Holds (others : ℕ) (f : Contents) (v : Server) : Type 0 where
    pub chains : List Chain
    pub valid : IsValid others v.kernel chains
    pub reads : (q : ℕ) → contents v.kernel q ≡ f q
    pub short : IsShort f
    pub authed : v.authenticated ≡ true

  -- The answer is the promised text, and the map is the promised one.
  pub record Obeys (others : ℕ) (r : List ℕ × Server) (s : List ℕ × Contents) : Type 0 where
    pub text : r.0 ≡ s.0
    pub holds : Holds others s.1 r.1

  device_ok :
      (env : Env) (number : Cmd → ℕ) (cmd : Cmd) (key value : List ℕ) (n : ℕ) (k : Kernel)
      → OnKey cmd
      → parse_key key ≡ some n
      → (handle_kv_message env cmd (outgoing n value) k).0 ≡ pos 0
      → do_kv_operation env number cmd key value k ≡ (
        response_to number cmd (handle_kv_message env cmd (outgoing n value) k).1,
        (handle_kv_message env cmd (outgoing n value) k).2,
      )
  device_ok env number kv_insert key value n k on e code =
      unfold do_kv_operation kv_ioctl in rw (e, do_kv_operation, code)
  device_ok env number kv_update key value n k on e code =
      unfold do_kv_operation kv_ioctl in rw (e, do_kv_operation, code)
  device_ok env number kv_get key value n k on e code =
      unfold do_kv_operation kv_ioctl in rw (e, do_kv_operation, code)
  device_ok env number kv_delete key value n k on e code =
      unfold do_kv_operation kv_ioctl in rw (e, do_kv_operation, code)
  device_ok env number kv_snapshot key value n k on e code = absurd on
  device_ok env number kv_count key value n k on e code = absurd on
  device_ok env number (other m) key value n k on e code = absurd on

  Holds-AllTexts : {others : ℕ} {f : Contents} {v : Server} → Holds others f v → AllTexts f
  Holds-AllTexts h q v e = NoNul-contents h.valid q [] 0 v (h.reads q ∙ e)

  module _ {others : ℕ} {f : Contents} {v : Server} (h : Holds others f v) (set : Setting)
      (lucky : IsLucky set.env) (cmd : Cmd) (on : OnKey cmd) (n : ℕ) (in_range : n < 2 ^ 64)
      (value : List ℕ) (text : NoNul value) where
    same : contents v.kernel ≡ f
    same = fun_ext h.reads

    says :
        Says set.number cmd
          (spec_message set.env cmd (outgoing n value) f)
          (protocol cmd n (take 63 value) f)
    unfolding outgoing
    says =
        let said =
          message-Says set.number set.env lucky (outgoing n value)
            (outgoing-IsTerminated n value text) f h.short (Holds-AllTexts h) cmd on in
        rw (outgoing_key n value, c_string-outgoing n value text) at said

    -- What the operation answers.
    pub answered-Obeys :
        Obeys others (answered_by set cmd (decimal n) value v) (protocol cmd n (take 63 value) f)
    answered-Obeys =
        let msg = outgoing n value in
        let a₀ = message-Answers h.valid set.env cmd msg in
        let a =
          subst
            (λ (g : Contents).
              Answers others (handle_kv_message set.env cmd msg v.kernel)
                (spec_message set.env cmd msg g))
            same a₀ in
        let run =
          device_ok set.env set.number cmd (decimal n) value n v.kernel on
            (parse_key-decimal n in_range) (a.code ∙ says.code) in
        let short =
          operation-IsShort set.env cmd msg f (outgoing-IsTerminated n value text) h.short in
        rw run (record {
          text = ap (λ m. response_to set.number cmd m) a.message ∙ says.text;
          holds = record {
            chains = a.chains;
            valid = a.valid;
            reads = λ q. a.reads q ∙ ap (λ (g : Contents). g q) says.after;
            short = rw (says.after) at short;
            authed = h.authed;
          };
        })

  pub OnKey-IsKeyed : (cmd : Cmd) (text : List ℕ) → IsKeyed cmd text → OnKey cmd
  OnKey-IsKeyed kv_insert (c ∷ s) h = tt
  OnKey-IsKeyed kv_update (c ∷ s) h = tt
  OnKey-IsKeyed kv_insert [] h = absurd h
  OnKey-IsKeyed kv_update [] h = absurd h
  OnKey-IsKeyed kv_get text h = tt
  OnKey-IsKeyed kv_delete text h = tt
  OnKey-IsKeyed kv_snapshot text h = h
  OnKey-IsKeyed kv_count text h = h
  OnKey-IsKeyed (other n) text h = h

  pub OnKey-NeedsNoValue : (cmd : Cmd) → NeedsNoValue cmd → OnKey cmd
  OnKey-NeedsNoValue kv_get h = tt
  OnKey-NeedsNoValue kv_delete h = tt
  OnKey-NeedsNoValue kv_insert h = absurd h
  OnKey-NeedsNoValue kv_update h = absurd h
  OnKey-NeedsNoValue kv_snapshot h = h
  OnKey-NeedsNoValue kv_count h = h
  OnKey-NeedsNoValue (other n) h = h

  line-Obeys :
      {others : ℕ} {f : Contents} {v : Server} (set : Setting) (cmd : Cmd) (n : ℕ)
      (value : Option (List ℕ))
      → Holds others f v
      → IsLucky set.env
      → n < 2 ^ 64
      → HasValue cmd value
      → NoNul (value_of value)
      → Obeys others
          (parse_and_handle_command set (line_of cmd n value) v)
          (protocol cmd n (take 63 (value_of value)) f)
  line-Obeys {v = v} set cmd n none h lucky in_range need text =
      rw (parse-dispatches_bare set cmd n v need h.authed)
        (answered-Obeys h set lucky cmd (OnKey-NeedsNoValue cmd need) n in_range [] text)
  line-Obeys {v = v} set cmd n (some value) h lucky in_range need text =
      rw (parse-dispatches set cmd n value v need.0 need.1 h.authed)
        (answered-Obeys h set lucky cmd (OnKey-IsKeyed cmd value need.0) n in_range value text)

  -- Over an authenticated connection to a valid table
  pub command-Obeys :
      {others : ℕ} {f : Contents} {v : Server} (set : Setting) (o : Order)
      → Holds others f v
      → IsLucky set.env
      → IsOrder o
      → Obeys others (parse_and_handle_command set (written o) v) (promised o f)
  command-Obeys set o h lucky order =
      line-Obeys set o.cmd o.key o.value h lucky order.in_range order.has_value order.text
