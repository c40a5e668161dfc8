-- ===== src/Device/Refine.antt =====
-- A run of calls of the device, kernel/kvlkm.c, against the store that Device/Spec promises.
use kvstore_lkm.Prelude.{
  ℕ, ◌≡◌, refl, Bool, true, false, not, none, some, List, [], ◌∷◌, if◌then◌else◌, ℤ, pos, neg,
  is_neg,
}
use mathlib.Core.Path.{fun_ext}
use kvstore_lkm.Message.{
  Cmd, kv_insert, kv_delete, kv_get, kv_update, kv_snapshot, kv_count, other, KvMessage,
}
use kvstore_lkm.Hash.Chain.{Chain}
use kvstore_lkm.Hash.Table.{Hashing, Kernel, IsValid, einval}
use kvstore_lkm.Hash.View.{Contents, contents}
use kvstore_lkm.Device.Handlers.{Env}
use kvstore_lkm.Device.Ioctl.{handle_kv_message, efault}
use kvstore_lkm.Device.Spec.{spec_operation}
use kvstore_lkm.Device.Meets.{Meets}
use kvstore_lkm.Device.Meets.Writes.{insert-Meets, update-Meets}
use kvstore_lkm.Device.Meets.Reads.{get-Meets, delete-Meets}

-- One call on a message, as promised: code, message and contents.
abbrev pub spec_message : Env → Cmd → KvMessage → Contents → ℤ × KvMessage × Contents
spec_message env cmd arg f =
    if not env.copy_in then (neg efault, arg, f) else elim (spec_operation env cmd arg f) [
      | none ↦ (neg einval, arg, f)
      | some (msg, g) ↦ if not env.copy_out then (neg efault, arg, g) else (pos 0, msg, g)
    ]

module _ ⦃hashing : Hashing⦄ where
  -- The code and the message are the promised ones, and the table is valid and holds the promised
  -- contents.
  pub record Answers (others : ℕ) (r : ℤ × KvMessage × Kernel) (s : ℤ × KvMessage × Contents)
      : Type 0 where
    pub code : r.0 ≡ s.0
    pub message : r.1 ≡ s.1
    pub chains : List Chain
    pub valid : IsValid others r.2 chains
    pub reads : (q : ℕ) → contents r.2 q ≡ s.2 q

  -- What follows the `switch` in `_handle_kv_message`.
  abbrev reply : Bool → KvMessage → ℤ × KvMessage × Kernel → ℤ × KvMessage × Kernel
  reply copy_out arg (ret, msg, k') =
      if is_neg ret
      then (ret, arg, k')
      else if not copy_out
      then (neg efault, arg, k')
      else (ret, msg, k')

  reply-Answers :
      {others : ℕ} (copy_out : Bool) (arg : KvMessage) (r : ℤ × KvMessage × Kernel)
      (s : KvMessage × Contents)
      → Meets others r s
      → Answers others
          (reply copy_out arg r)
          (if not copy_out then (neg efault, arg, s.1) else (pos 0, s.0, s.1))
  reply-Answers true arg (ret, msg, k') s m = rw (m.code) (record {
    code = refl;
    message = m.message;
    chains = m.chains;
    valid = m.valid;
    reads = m.reads;
  })
  reply-Answers false arg (ret, msg, k') s m =
      rw (m.code) (record {
        code = refl;
        message = refl;
        chains = m.chains;
        valid = m.valid;
        reads = m.reads;
      })

  module _ {others : ℕ} {k : Kernel} {bs : List Chain} (valid : IsValid others k bs) where
    nothing_done :
        (code : ℤ) (arg : KvMessage) → Answers others (code, arg, k) (code, arg, contents k)
    nothing_done code arg = record {
      code = refl;
      message = refl;
      chains = bs;
      valid = valid;
      reads = λ q. refl;
    }

    gate :
        (copy_in : Bool) (arg : KvMessage) (r : ℤ × KvMessage × Kernel)
        (s : ℤ × KvMessage × Contents)
        → Answers others r s
        → Answers others
            (if not copy_in then (neg efault, arg, k) else r)
            (if not copy_in then (neg efault, arg, contents k) else s)
    gate true arg r s a = a
    gate false arg r s a = nothing_done (neg efault) arg

    -- On a valid table, one call of the device on a message answers, for every command and whatever
    -- the copies and the allocations do, with the code and the message of the promise, and leaves a
    -- valid table that holds what the promise says.
    pub message-Answers :
        (env : Env) (cmd : Cmd) (arg : KvMessage)
        → Answers others (handle_kv_message env cmd arg k) (spec_message env cmd arg (contents k))
    unfolding handle_kv_message
    message-Answers env kv_insert arg =
        gate env.copy_in arg _ _ (reply-Answers env.copy_out arg _ _ (insert-Meets valid env arg))
    message-Answers env kv_update arg =
        gate env.copy_in arg _ _ (reply-Answers env.copy_out arg _ _ (update-Meets valid env arg))
    message-Answers env kv_get arg =
        gate env.copy_in arg _ _ (reply-Answers env.copy_out arg _ _ (get-Meets valid env arg))
    message-Answers env kv_delete arg =
        gate env.copy_in arg _ _ (reply-Answers env.copy_out arg _ _ (delete-Meets valid env arg))
    message-Answers env kv_snapshot arg = gate env.copy_in arg _ _ (nothing_done (neg einval) arg)
    message-Answers env kv_count arg = gate env.copy_in arg _ _ (nothing_done (neg einval) arg)
    message-Answers env (other n) arg = gate env.copy_in arg _ _ (nothing_done (neg einval) arg)

-- A call on a message, with what the kernel does during it.
pub record Request : Type 0 where
  pub env : Env
  pub cmd : Cmd
  pub message : KvMessage

-- The replies that the promise gives to a run of calls, and the contents after it.
abbrev pub spec_serve : List Request → Contents → List (ℤ × KvMessage) × Contents
spec_serve [] f = ([], f)
spec_serve (r ∷ rs) f =
    let (ret, msg, g) = spec_message r.env r.cmd r.message f in
    let (replies, h) = spec_serve rs g in ((ret, msg) ∷ replies, h)

module _ ⦃hashing : Hashing⦄ where
  -- The device under a run of calls.
  unfoldable pub serve : List Request → Kernel → List (ℤ × KvMessage) × Kernel
  serve [] k = ([], k)
  serve (r ∷ rs) k =
      let (ret, msg, k') = handle_kv_message r.env r.cmd r.message k in
      let (replies, k'') = serve rs k' in ((ret, msg) ∷ replies, k'')

  pub record Serves (others : ℕ) (r : List (ℤ × KvMessage) × Kernel)
      (s : List (ℤ × KvMessage) × Contents) : Type 0 where
    pub replies : r.0 ≡ s.0
    pub chains : List Chain
    pub valid : IsValid others r.1 chains
    pub reads : (q : ℕ) → contents r.1 q ≡ s.1 q

  -- From a valid table, any run of calls of the device on messages, whatever the copies and the
  -- allocations of each call do, gets the codes and the messages that Device/Spec gives for a
  -- function from keys to values, and leaves a valid table that holds the function that Device/Spec
  -- ends in. A call whose message is copied in and out is answered by the code 0 also where the
  -- insert, the update, the get or the delete fails: the failure is in the status and the value of
  -- the message.
  pub serve-refines :
      {others : ℕ} (rs : List Request) {k : Kernel} {bs : List Chain}
      → IsValid others k bs
      → Serves others (serve rs k) (spec_serve rs (contents k))
  unfolding serve
  serve-refines [] {bs = bs} valid = record {
    replies = refl;
    chains = bs;
    valid = valid;
    reads = λ q. refl;
  }
  serve-refines {others} (r ∷ rs) {k = k} valid =
      let a = message-Answers valid r.env r.cmd r.message in
      let rest = serve-refines rs a.valid in
      let same : contents (handle_kv_message r.env r.cmd r.message k).2
          ≡ (spec_message r.env r.cmd r.message (contents k)).2 =
        fun_ext a.reads in
      let rest' = rw same at rest in
      record {
        replies = λ i. (a.code i, a.message i) ∷ rest'.replies i;
        chains = rest'.chains;
        valid = rest'.valid;
        reads = rest'.reads;
      }
