-- ===== src/Device/Interleave.antt =====
-- Several threads in the handlers of kernel/kvlkm.c at once. Each call of the hash table holds the
-- lock of one bucket; `_handle_insert` and `_handle_update` make two such calls, and other threads
-- may come in between.
pub mod Promise
pub mod Atomic
pub mod Race
pub mod Bits
use kvstore_lkm.Prelude.{
  ℕ, zero, suc, not, some, List, [], ◌∷◌, ◌++◌, if◌then◌else◌, ℤ, pos, is_neg, codes,
}
use kvstore_lkm.Text.{decimal}
use kvstore_lkm.Message.{KvMessage, max_value_len, zero_value}
use kvstore_lkm.Hash.Table.{Hashing, kv_store, Kernel}
use kvstore_lkm.Hash.Ops.{kv_hash_add, kv_hash_lookup}
use kvstore_lkm.Device.Handlers.{Env, put_value, handle_get, handle_delete}

-- Where a thread is: in front of its first call of the table, between the two, or at its end.
pub data Phase : Type 0 where
  start checked done : Phase

-- The handler that a thread is in.
pub data Handler : Type 0 where
  inserting updating getting deleting : Handler

pub record Thread : Type 0 where
  pub env : Env
  pub handler : Handler
  pub phase : Phase
  pub message : KvMessage

abbrev pub finished : Thread → KvMessage → Thread
finished t msg = record t { phase = done; message = msg }

-- What a write that fails leaves in the message; only the first two handlers write.
abbrev pub failure_of : Handler → List ℕ
failure_of inserting = codes "Insert failed.\n"
failure_of updating = codes "Update failed.\n"
failure_of getting = []
failure_of deleting = []

module _ ⦃hashing : Hashing⦄ where
  unfoldable pub check_insert : Thread → Kernel → Thread × Kernel
  unfolding put_value
  check_insert t k =
      let (ret, existing, k₁) =
        kv_hash_lookup kv_store t.message.key (some zero_value) max_value_len k in
      if not (is_neg ret)
      then (
        finished t
            (put_value (record t.message { status = pos 1 }) (codes "Key exists. Use update.\n")),
        k₁,
      )
      else (record t { phase = checked }, k₁)

  unfoldable pub check_update : Thread → Kernel → Thread × Kernel
  unfolding put_value decimal
  check_update t k =
      let (ret, tmp, k₁) =
        kv_hash_lookup kv_store t.message.key (some zero_value) max_value_len k in
      if is_neg ret
      then (
        finished t (
            put_value (record t.message { status = pos 1 })
              (codes "Cannot update non-existent key: " ++ decimal t.message.key ++ codes "\n")),
        k₁,
      )
      else (record t { phase = checked }, k₁)

  -- The second call of an insert or an update.
  unfoldable pub store_value : Thread → Kernel → Thread × Kernel
  unfolding put_value
  store_value t k =
      let (ret', k₂) =
        kv_hash_add kv_store t.message.key (some (t.message.value ++ t.env.beyond)) t.env.dup_ok
          t.env.node_ok k in
      if is_neg ret'
      then (finished t (put_value (record t.message { status = ret' }) (failure_of t.handler)), k₂)
      else (finished t (record t.message { status = pos 0 }), k₂)

  -- The handlers with one call are one section.
  abbrev ended : Thread → ℤ × KvMessage × Kernel → Thread × Kernel
  ended t (ret, msg, k) = (finished t msg, k)

  unfoldable pub section_at : Phase → Handler → Thread → Kernel → Thread × Kernel
  section_at start inserting t k = check_insert t k
  section_at start updating t k = check_update t k
  section_at start getting t k = ended t (handle_get t.message k)
  section_at start deleting t k = ended t (handle_delete t.message k)
  section_at checked handler t k = store_value t k
  section_at done handler t k = (t, k)

  -- The next critical section of a thread.
  unfoldable pub next_section : Thread → Kernel → Thread × Kernel
  next_section t k = section_at t.phase t.handler t k

  -- The thread with this number runs its next section; a number without a thread does nothing.
  unfoldable pub one_step : ℕ → List Thread → Kernel → List Thread × Kernel
  one_step i [] k = ([], k)
  one_step zero (t ∷ ts) k = let (t', k') = next_section t k in (t' ∷ ts, k')
  one_step (suc i) (t ∷ ts) k = let (ts', k') = one_step i ts k in (t ∷ ts', k')

  -- An interleaving names the thread of each step.
  unfoldable pub interleave : List ℕ → List Thread → Kernel → List Thread × Kernel
  interleave [] ts k = (ts, k)
  interleave (i ∷ is) ts k = let (ts', k') = one_step i ts k in interleave is ts' k'
