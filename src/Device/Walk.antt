-- ===== src/Device/Walk.antt =====
-- `kv_hash_count` and `kv_hash_snapshot` of kernel/kv_hash.c while other threads are in the handlers
-- of kernel/kvlkm.c. A walk holds the lock of one bucket at a time; in front of each lock the other
-- threads run.
pub mod Moments
pub mod Sees
pub mod Snapshot
pub mod Untouched
pub mod Torn
pub mod Dropped
use kvstore_lkm.Prelude.{
  ℕ, zero, suc, not, Option, none, some, List, [], ◌==◌, if◌then◌else◌, ℤ, pos, neg, to_int,
  to_unsigned, get_or,
}
use kvstore_lkm.Message.{KvMessage, KvSnapshotMessage}
use kvstore_lkm.Hash.Chain.{Chain}
use kvstore_lkm.Hash.Table.{Hashing, kv_store, Kernel, einval, spin_lock, spin_unlock, bucket_count}
use kvstore_lkm.Hash.Ops.{count_chain, copy_chain, kv_hash_count}
use kvstore_lkm.Device.Handlers.{Env}
use kvstore_lkm.Device.Ioctl.{efault, send_snapshot}
use kvstore_lkm.Device.Interleave.{Thread, interleave}

-- The turns of the other threads in front of the lock of each bucket.
abbrev pub Gaps : Type 0
Gaps = ℕ → List ℕ

-- `ht->buckets[bucket]`
abbrev pub chain_of : ℕ → Option (List Chain) → Chain
chain_of bucket none = []
chain_of bucket (some bs) = get_or bs bucket []

abbrev pub chain_at : ℕ → Kernel → Chain
chain_at bucket k = chain_of bucket k.table.buckets

module _ ⦃hashing : Hashing⦄ where
  unfoldable pub count_among : Gaps → ℕ → ℕ → ℕ → List Thread → Kernel → ℕ × List Thread × Kernel
  unfolding spin_lock spin_unlock
  count_among gaps zero bucket count ts k = (count, ts, k)
  count_among gaps (suc rounds) bucket count ts k =
      let (ts', k₁) = interleave (gaps bucket) ts k in
      count_among gaps rounds (suc bucket) (count_chain (chain_at bucket k₁) count) ts'
        (spin_unlock bucket (spin_lock bucket k₁))

  abbrev count_from : Gaps → List Thread → Kernel → Option (List Chain) → ℤ × List Thread × Kernel
  count_from gaps ts k none = (neg einval, ts, k)
  count_from gaps ts k (some bs) =
      let (count, ts', k') = count_among gaps (bucket_count k.table.bits) 0 0 ts k in
      (to_int count, ts', k')

  unfoldable pub kv_hash_count_among : Gaps → List Thread → Kernel → ℤ × List Thread × Kernel
  kv_hash_count_among gaps ts k = count_from gaps ts k k.table.buckets

  unfoldable pub copy_among :
      Gaps
      → ℕ
      → ℕ
      → ℕ
      → List KvMessage
      → ℕ
      → List Thread
      → Kernel
      → List KvMessage × ℕ × List Thread × Kernel
  unfolding spin_lock spin_unlock
  copy_among gaps zero bucket max_entries entries count ts k = (entries, count, ts, k)
  copy_among gaps (suc rounds) bucket max_entries entries count ts k =
      let (ts', k₁) = interleave (gaps bucket) ts k in
      let (full, entries', count') = copy_chain (chain_at bucket k₁) max_entries entries count in
      let k₂ = spin_unlock bucket (spin_lock bucket k₁) in
      let rest = copy_among gaps rounds (suc bucket) max_entries entries' count' ts' k₂ in
      if full then (entries', count', ts', k₂) else rest

  -- The code, the array, `*out_count`, the threads and the state.
  abbrev copy_from :
      Gaps
      → List KvMessage
      → ℕ
      → ℕ
      → List Thread
      → Kernel
      → Option (List Chain)
      → ℤ × List KvMessage × ℕ × List Thread × Kernel
  copy_from gaps entries max_entries out_count ts k none = (neg einval, entries, out_count, ts, k)
  copy_from gaps entries max_entries out_count ts k (some bs) =
      if max_entries == 0
      then (neg einval, entries, out_count, ts, k)
      else let (entries', count, ts', k') =
          copy_among gaps (bucket_count k.table.bits) 0 max_entries entries 0 ts k in
        (pos 0, entries', count, ts', k')

  unfoldable pub kv_hash_snapshot_among :
      Gaps
      → List KvMessage
      → ℕ
      → ℕ
      → List Thread
      → Kernel
      → ℤ × List KvMessage × ℕ × List Thread × Kernel
  kv_hash_snapshot_among gaps entries max_entries out_count ts k =
      copy_from gaps entries max_entries out_count ts k k.table.buckets

  -- `_handle_kv_snapshot`, where the other threads run between the count and the snapshot.
  unfoldable pub handle_kv_snapshot_paused :
      Env
      → List ℕ
      → KvSnapshotMessage
      → List Thread
      → Kernel
      → ℤ × KvSnapshotMessage × List Thread × Kernel
  handle_kv_snapshot_paused env pause arg ts k =
      if not env.copy_in
      then (neg efault, arg, ts, k)
      else let (actual_count, k₁) = kv_hash_count kv_store k in
        if not (to_unsigned actual_count == arg.capacity)
        then (actual_count, arg, ts, k₁)
        else let (ts', k₂) = interleave pause ts k₁ in
          let (ret, msg, k₃) = send_snapshot env actual_count arg k₂ in (ret, msg, ts', k₃)
