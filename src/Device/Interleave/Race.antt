-- ===== src/Device/Interleave/Race.antt =====
-- Interleavings of the handlers of kernel/kvlkm.c in which a thread comes in between two calls of another.
use kvstore_lkm.Prelude.{ℕ, ◌<◌, ◌≡◌, ap, ◌∙◌, none, some, List, [], ◌∷◌, ◌++◌, arith, pos, length}
use kvstore_lkm.Text.{c_string}
use kvstore_lkm.Message.{KvMessage, max_value_len}
use kvstore_lkm.Hash.Chain.{Chain}
use kvstore_lkm.Hash.Table.{Hashing, Kernel, IsValid}
use kvstore_lkm.Hash.View.{Contents, contents, update}
use kvstore_lkm.Device.Handlers.{Env}
use kvstore_lkm.Device.RoundTrip.{IsLucky}
use kvstore_lkm.Device.Interleave.{
  start, checked, Handler, inserting, updating, deleting, Thread, finished, interleave,
}
use kvstore_lkm.Device.Interleave.Promise.{spec_section, spec_interleave}
use kvstore_lkm.Device.Interleave.Atomic.{interleave-Agrees}

-- A thread in front of its first section.
abbrev pub fresh_thread : Handler → Env → KvMessage → Thread
fresh_thread handler env msg = record { env = env; handler = handler; phase = start; message = msg }

-- A step of the first thread, and one of the second.
pub first_steps :
    (t t' : Thread) (ts : List Thread) (is : List ℕ) (f g : Contents)
    → spec_section t.phase t.handler t f ≡ (t', g)
    → spec_interleave (0 ∷ is) (t ∷ ts) f ≡ spec_interleave is (t' ∷ ts) g
first_steps t t' ts is f g e = ap (λ (r : Thread × Contents). spec_interleave is (r.0 ∷ ts) r.1) e

pub second_steps :
    (t u u' : Thread) (ts : List Thread) (is : List ℕ) (f g : Contents)
    → spec_section u.phase u.handler u f ≡ (u', g)
    → spec_interleave (1 ∷ is) (t ∷ u ∷ ts) f ≡ spec_interleave is (t ∷ u' ∷ ts) g
second_steps t u u' ts is f g e =
    ap (λ (r : Thread × Contents). spec_interleave is (t ∷ r.0 ∷ ts) r.1) e

-- The sections of which the races consist.
module _ (t : Thread) (f : Contents) where
  pub insert_passes :
      f t.message.key ≡ none → spec_section start inserting t f ≡ (record t { phase = checked }, f)
  insert_passes absent = ground arith

  update_passes :
      (v : List ℕ)
      → f t.message.key ≡ some v
      → length v < max_value_len
      → spec_section start updating t f ≡ (record t { phase = checked }, f)
  update_passes v there fits = ground arith

  delete_done :
      (v : List ℕ)
      → f t.message.key ≡ some v
      → spec_section start deleting t f
        ≡ (finished t (record t.message { status = pos 0 }), update f t.message.key none)
  delete_done v there = ground arith

  pub write_done :
      (handler : Handler)
      → IsLucky t.env
      → spec_section checked handler t f ≡ (
        finished t (record t.message { status = pos 0 }),
        update f t.message.key (some (c_string (t.message.value ++ t.env.beyond))),
      )
  write_done handler lucky = ground (arith, lucky.string_made, lucky.node_made)

module _ (env env' : Env) (msg msg' : KvMessage) (f : Contents) (same : msg'.key ≡ msg.key) where
  abbrev pub stored : Env → KvMessage → List ℕ
  stored env msg = c_string (msg.value ++ env.beyond)

  insert_race_map :
      IsLucky env
      → IsLucky env'
      → f msg.key ≡ none
      → spec_interleave
          (0 ∷ 1 ∷ 0 ∷ 1 ∷ [])
          (fresh_thread inserting env msg ∷ fresh_thread inserting env' msg' ∷ [])
          f
        ≡ (
          finished (fresh_thread inserting env msg) (record msg { status = pos 0 })
              ∷ finished (fresh_thread inserting env' msg') (record msg' { status = pos 0 })
              ∷ [],
          update (update f msg.key (some (stored env msg))) msg'.key (some (stored env' msg')),
        )
  insert_race_map lucky lucky' absent =
      let t = fresh_thread inserting env msg in
      let t' = fresh_thread inserting env' msg' in
      let u : Thread = record t { phase = checked } in
      let u' : Thread = record t' { phase = checked } in
      let g : Contents = update f msg.key (some (stored env msg)) in
      first_steps t u (t' ∷ []) (1 ∷ 0 ∷ 1 ∷ []) f f (insert_passes t f absent)
      ∙ second_steps u t' u' [] (0 ∷ 1 ∷ []) f f (insert_passes t' f (rw same absent))
      ∙ first_steps u _ (u' ∷ []) (1 ∷ []) f g (write_done u f inserting lucky)
      ∙ second_steps _ u' _ [] [] g _ (write_done u' g inserting lucky')

  delete_race_map :
      (v : List ℕ)
      → IsLucky env
      → f msg.key ≡ some v
      → length v < max_value_len
      → spec_interleave
          (0 ∷ 1 ∷ 0 ∷ [])
          (fresh_thread updating env msg ∷ fresh_thread deleting env' msg' ∷ [])
          f
        ≡ (
          finished (fresh_thread updating env msg) (record msg { status = pos 0 })
              ∷ finished (fresh_thread deleting env' msg') (record msg' { status = pos 0 })
              ∷ [],
          update (update f msg'.key none) msg.key (some (stored env msg)),
        )
  delete_race_map v lucky there fits =
      let t = fresh_thread updating env msg in
      let t' = fresh_thread deleting env' msg' in
      let u : Thread = record t { phase = checked } in
      let g : Contents = update f msg'.key none in
      first_steps t u (t' ∷ []) (1 ∷ 0 ∷ []) f f (update_passes t f v there fits)
      ∙ second_steps u t' _ [] (0 ∷ []) f g (delete_done t' f v (rw same there))
      ∙ first_steps u _ _ [] g _ (write_done u g updating lucky)

module _ ⦃hashing : Hashing⦄ where
  module _ {others : ℕ} {k : Kernel} {bs : List Chain} (valid : IsValid others k bs)
      (env env' : Env) (msg msg' : KvMessage) (same : msg'.key ≡ msg.key) where
    -- On a valid table, if their allocations succeed, two threads that insert the same new key and
    -- both look it up before either adds it both report success, and the value of the second to add
    -- it is the one that stays.
    pub insert_race :
        IsLucky env
        → IsLucky env'
        → contents k msg.key ≡ none
        → let threads = fresh_thread inserting env msg ∷ fresh_thread inserting env' msg' ∷ [] in
          let r = interleave (0 ∷ 1 ∷ 0 ∷ 1 ∷ []) threads k in
          (r.0
            ≡ finished (fresh_thread inserting env msg) (record msg { status = pos 0 })
              ∷ finished (fresh_thread inserting env' msg') (record msg' { status = pos 0 })
              ∷ [])
          × (contents r.1 msg.key ≡ some (c_string (msg'.value ++ env'.beyond)))
    insert_race lucky lucky' absent =
        let threads = fresh_thread inserting env msg ∷ fresh_thread inserting env' msg' ∷ [] in
        let a = interleave-Agrees (0 ∷ 1 ∷ 0 ∷ 1 ∷ []) threads valid in
        let run = insert_race_map env env' msg msg' (contents k) same lucky lucky' absent in
        (
          a.threads ∙ ap (λ (r : List Thread × Contents). r.0) run,
          a.reads msg.key
              ∙ ap (λ (r : List Thread × Contents). r.1 msg.key) run
              ∙ ground (arith, same),
        )

    -- On a valid table, if the allocations of the first succeed, a thread that updates a key, with
    -- a stored value shorter than 64 bytes, and a thread that deletes the key between the lookup
    -- and the add of the first both report success, and the key is in the table at the end, with
    -- the value of the update.
    pub delete_race :
        (v : List ℕ)
        → IsLucky env
        → contents k msg.key ≡ some v
        → length v < max_value_len
        → let threads = fresh_thread updating env msg ∷ fresh_thread deleting env' msg' ∷ [] in
          let r = interleave (0 ∷ 1 ∷ 0 ∷ []) threads k in
          (r.0
            ≡ finished (fresh_thread updating env msg) (record msg { status = pos 0 })
              ∷ finished (fresh_thread deleting env' msg') (record msg' { status = pos 0 })
              ∷ [])
          × (contents r.1 msg.key ≡ some (c_string (msg.value ++ env.beyond)))
    delete_race v lucky there fits =
        let threads = fresh_thread updating env msg ∷ fresh_thread deleting env' msg' ∷ [] in
        let a = interleave-Agrees (0 ∷ 1 ∷ 0 ∷ []) threads valid in
        let run = delete_race_map env env' msg msg' (contents k) same v lucky there fits in
        (
          a.threads ∙ ap (λ (r : List Thread × Contents). r.0) run,
          a.reads msg.key ∙ ap (λ (r : List Thread × Contents). r.1 msg.key) run ∙ ground arith,
        )
