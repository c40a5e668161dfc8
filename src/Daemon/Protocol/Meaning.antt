-- ===== src/Daemon/Protocol/Meaning.antt =====
-- One call of the device for a command of user/daemon/daemon.cpp, and the text that answers it.
use kvstore_lkm.Prelude.{
  ℕ, ◌≡◌, ◌<◌, refl, none, some, List, [], ◌∷◌, ◌++◌, arith, pos, Option-cases, inl, inr, codes,
  length, length-replicate,
}
use kvstore_lkm.Text.{
  c_string, overwrite, NoNul, decimal, digits_of, c_string-overwrite, c_string-append,
}
use kvstore_lkm.Message.{
  Cmd, kv_insert, kv_delete, kv_get, kv_update, kv_snapshot, kv_count, other, KvMessage,
  max_value_len, zero_value,
}
use kvstore_lkm.Hash.View.{Contents, update}
use kvstore_lkm.Device.Handlers.{Env, put_value}
use kvstore_lkm.Device.Spec.{refused}
use kvstore_lkm.Device.Refine.{spec_message}
use kvstore_lkm.Device.RoundTrip.{IsLucky, insert_new, get_seen, get_unseen}
use kvstore_lkm.Device.Values.{IsTerminated, IsShort}
use kvstore_lkm.Daemon.Operation.{response_to}
use kvstore_lkm.Daemon.Protocol.{protocol, OnKey, AllTexts, Says}

-- A value that is got is read back from the message.
read_back :
    (v : List ℕ)
    → NoNul v
    → length v < max_value_len
    → c_string (overwrite (v ++ 0 ∷ []) zero_value) ≡ v
read_back v text fits =
    let room = length-replicate {A = ℕ} 64 0 in
    c_string-overwrite v zero_value text (omega (arith, room, fits))

insert_old :
    (env : Env) (msg : KvMessage) (f : Contents) (v : List ℕ)
    → IsLucky env
    → f msg.key ≡ some v
    → length v < max_value_len
    → spec_message env kv_insert msg f ≡ (pos 0, refused msg (codes "Key exists. Use update.\n"), f)
insert_old env msg f v lucky e fits = ground (arith, lucky.copied_in)

update_old :
    (env : Env) (msg : KvMessage) (f : Contents) (v : List ℕ)
    → IsLucky env
    → f msg.key ≡ some v
    → length v < max_value_len
    → spec_message env kv_update msg f ≡ (
      pos 0,
      record msg { status = pos 0 },
      update f msg.key (some (c_string (msg.value ++ env.beyond))),
    )
update_old env msg f v lucky e fits = ground (arith, lucky.copied_in)

update_absent :
    (env : Env) (msg : KvMessage) (f : Contents)
    → IsLucky env
    → f msg.key ≡ none
    → spec_message env kv_update msg f ≡ (
      pos 0,
      refused msg (codes "Cannot update non-existent key: " ++ decimal msg.key ++ codes "\n"),
      f,
    )
update_absent env msg f lucky e = ground (arith, lucky.copied_in)

delete_old :
    (env : Env) (msg : KvMessage) (f : Contents) (v : List ℕ)
    → IsLucky env
    → f msg.key ≡ some v
    → spec_message env kv_delete msg f
      ≡ (pos 0, record msg { status = pos 0 }, update f msg.key none)
delete_old env msg f v lucky e = ground (arith, lucky.copied_in)

delete_absent :
    (env : Env) (msg : KvMessage) (f : Contents)
    → IsLucky env
    → f msg.key ≡ none
    → spec_message env kv_delete msg f ≡ (pos 0, refused msg (codes "Failed to delete key.\n"), f)
delete_absent env msg f lucky e = ground (arith, lucky.copied_in)

module _ (number : Cmd → ℕ) (env : Env) (lucky : IsLucky env) (msg : KvMessage)
    (t : IsTerminated msg) (f : Contents) (short : IsShort f) (texts : AllTexts f) where
  stored_text : c_string (msg.value ++ env.beyond) ≡ c_string msg.value
  stored_text = c_string-append msg.value env.beyond (omega (arith, t.size, t.ends))

  insert-Says :
      Says number kv_insert
        (spec_message env kv_insert msg f)
        (protocol kv_insert msg.key (c_string msg.value) f)
  unfolding response_to put_value
  insert-Says = elim (Option-cases (f msg.key)) [
    | inl e ↦
        let run = insert_new env msg f lucky e in
        rw (run, e, protocol, stored_text) (record { code = refl; text = refl; after = refl })
    | inr (v, e) ↦
        let run = insert_old env msg f v lucky e (short msg.key v e) in
        rw (run, e, protocol) (record { code = refl; text = refl; after = refl })
  ]

  update-Says :
      Says number kv_update
        (spec_message env kv_update msg f)
        (protocol kv_update msg.key (c_string msg.value) f)
  unfolding response_to put_value digits_of
  update-Says = elim (Option-cases (f msg.key)) [
    | inl e ↦
        let run = update_absent env msg f lucky e in
        rw (run, e, protocol) (record { code = refl; text = refl; after = refl })
    | inr (v, e) ↦
        let run = update_old env msg f v lucky e (short msg.key v e) in
        rw (run, e, protocol, stored_text) (record { code = refl; text = refl; after = refl })
  ]

  get-Says :
      Says number kv_get
        (spec_message env kv_get msg f)
        (protocol kv_get msg.key (c_string msg.value) f)
  unfolding response_to put_value
  get-Says = elim (Option-cases (f msg.key)) [
    | inl e ↦
        let run = get_unseen env msg f lucky (ground (arith, e)) in
        rw (run, e, protocol) (record { code = refl; text = refl; after = refl })
    | inr (v, e) ↦
        let fits = short msg.key v e in
        let run = get_seen env msg f v lucky e fits in
        let back = read_back v (texts msg.key v e) fits in
        rw (run, e, protocol) (record { code = refl; text = rw back refl; after = refl })
  ]

  delete-Says :
      Says number kv_delete
        (spec_message env kv_delete msg f)
        (protocol kv_delete msg.key (c_string msg.value) f)
  unfolding response_to put_value digits_of
  delete-Says = elim (Option-cases (f msg.key)) [
    | inl e ↦
        let run = delete_absent env msg f lucky e in
        rw (run, e, protocol) (record { code = refl; text = refl; after = refl })
    | inr (v, e) ↦
        let run = delete_old env msg f v lucky e in
        rw (run, e, protocol) (record { code = refl; text = refl; after = refl })
  ]

  -- Every command on a key.
  pub message-Says :
      (cmd : Cmd)
      → OnKey cmd
      → Says number cmd (spec_message env cmd msg f) (protocol cmd msg.key (c_string msg.value) f)
  message-Says kv_insert on = insert-Says
  message-Says kv_update on = update-Says
  message-Says kv_get on = get-Says
  message-Says kv_delete on = delete-Says
  message-Says kv_snapshot on = absurd on
  message-Says kv_count on = absurd on
  message-Says (other n) on = absurd on
