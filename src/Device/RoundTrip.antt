-- ===== src/Device/RoundTrip.antt =====
-- An INSERT and then a GET on the device of kernel/kvlkm.c, for a value with no NUL in its array.
use kvstore_lkm.Prelude.{
  ℕ, ◌≡◌, ◌<◌, refl, ap, ◌∙◌, true, none, some, List, [], ◌∷◌, ◌++◌, arith, ℤ, pos, codes, length,
  length-append,
}
use kvstore_lkm.Text.{c_string, overwrite, NoNul, decimal, c_string_overrun}
use kvstore_lkm.Message.{kv_insert, kv_get, KvMessage, max_value_len, zero_value}
use kvstore_lkm.Hash.Chain.{Chain}
use kvstore_lkm.Hash.Table.{Hashing, Kernel, IsValid}
use kvstore_lkm.Hash.View.{Contents, contents, update}
use kvstore_lkm.Device.Handlers.{Env, put_value}
use kvstore_lkm.Device.Ioctl.{handle_kv_message}
use kvstore_lkm.Device.Spec.{seen, refused}
use kvstore_lkm.Device.Refine.{spec_message, Answers, message-Answers}

-- The copies and the allocations of a call succeed.
pub record IsLucky (env : Env) : Type 0 where
  pub copied_in : env.copy_in ≡ true
  pub copied_out : env.copy_out ≡ true
  pub string_made : env.dup_ok ≡ true
  pub node_made : env.node_ok ≡ true

pub insert_new :
    (env : Env) (msg : KvMessage) (f : Contents)
    → IsLucky env
    → f msg.key ≡ none
    → spec_message env kv_insert msg f ≡ (
      pos 0,
      record msg { status = pos 0 },
      update f msg.key (some (c_string (msg.value ++ env.beyond))),
    )
insert_new env msg f lucky absent = ground (arith, lucky.copied_in)

pub get_seen :
    (env : Env) (msg : KvMessage) (f : Contents) (v : List ℕ)
    → IsLucky env
    → f msg.key ≡ some v
    → length v < max_value_len
    → spec_message env kv_get msg f
      ≡ (pos 0, record msg { status = pos 0; value = overwrite (v ++ 0 ∷ []) zero_value }, f)
get_seen env msg f v lucky e fits = ground (arith, lucky.copied_in)

pub get_unseen :
    (env : Env) (msg : KvMessage) (f : Contents)
    → IsLucky env
    → seen (f msg.key) ≡ none
    → spec_message env kv_get msg f ≡ (
      pos 0,
      refused
          (record msg { value = zero_value })
          (codes "Key '" ++ decimal msg.key ++ codes "' does not exist"),
      f,
    )
get_unseen env msg f lucky e = ground (arith, lucky.copied_in)

refused_status : (msg : KvMessage) (text : List ℕ) → (refused msg text).status ≡ pos 1
unfolding put_value
refused_status msg text = refl

module _ ⦃hashing : Hashing⦄ where
  -- Two calls, of which the second sees what the first left.
  abbrev pub then_get : Env → KvMessage → Env → KvMessage → Kernel → ℤ × KvMessage × Kernel
  then_get env msg env' msg' k =
      handle_kv_message env' kv_get msg' (handle_kv_message env kv_insert msg k).2

  module _ {others : ℕ} {k : Kernel} {bs : List Chain} (valid : IsValid others k bs)
      (env env' : Env) (msg msg' : KvMessage) (lucky : IsLucky env) (lucky' : IsLucky env')
      (absent : contents k msg.key ≡ none) (same_key : msg'.key ≡ msg.key) where
    stored :
        contents (handle_kv_message env kv_insert msg k).2 msg'.key
        ≡ some (c_string (msg.value ++ env.beyond))
    stored =
        let a = message-Answers valid env kv_insert msg in
        let run = insert_new env msg (contents k) lucky absent in
        a.reads msg'.key ∙ rw (run, same_key) (ground arith)

    got :
        Answers others
          (then_get env msg env' msg' k)
          (spec_message env' kv_get msg' (contents (handle_kv_message env kv_insert msg k).2))
    got =
        let a = message-Answers valid env kv_insert msg in message-Answers a.valid env' kv_get msg'

    long_unseen :
        (ys : List ℕ) → length msg.value ≡ max_value_len → seen (some (msg.value ++ ys)) ≡ none
    long_unseen ys size = ground (arith, length-append msg.value ys)

    -- On a valid table, if the calls succeed, a message of 64 bytes with no NUL that is inserted
    -- under a new key is stored with the memory behind it up to the first NUL, and a GET of the key
    -- then answers with code 0 and the status for a key that does not exist.
    pub insert_overrun :
        NoNul msg.value
        → length msg.value ≡ max_value_len
        → (contents (handle_kv_message env kv_insert msg k).2 msg.key
            ≡ some (msg.value ++ c_string env.beyond))
          × ((then_get env msg env' msg' k).0 ≡ pos 0)
          × ((then_get env msg env' msg' k).1.status ≡ pos 1)
    insert_overrun full size =
        let f = contents (handle_kv_message env kv_insert msg k).2 in
        let run_on = c_string_overrun msg.value env.beyond full in
        let kept : f msg'.key ≡ some (msg.value ++ c_string env.beyond) = rw run_on at stored in
        let hidden : seen (f msg'.key) ≡ none = rw kept (long_unseen (c_string env.beyond) size) in
        let reply = get_unseen env' msg' f lucky' hidden in
        (
          rw same_key at kept,
          rw reply at got.code,
          ap (λ (m : KvMessage). m.status) (rw reply at got.message)
              ∙ refused_status (record msg' { value = zero_value }) _,
        )
