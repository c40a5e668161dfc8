-- ===== src/Hash/Ops.antt =====
-- kernel/kv_hash.c: the operations on a table. Whether an allocation succeeds is an argument, and
-- each operation returns its code, what it wrote for the caller, and the new state.
use kvstore_lkm.Prelude.{
  ℕ, zero, suc, ◌+◌, Bool, true, false, not, Option, none, some, List, [], ◌∷◌, ◌++◌, ◌==◌, ltb,
  leb, if◌then◌else◌, ℤ, pos, neg, to_int, length, get_or, set, replicate,
}
use kvstore_lkm.Text.{c_string, overwrite, put_text}
use kvstore_lkm.Message.{KvMessage, max_value_len, zero_value}
use kvstore_lkm.Hash.Chain.{Entry, Chain, find, assign, unlink}
use kvstore_lkm.Hash.Table.{
  Hashing, HashTable, TablePtr, null, kv_store, Kernel, einval, enomem, enoent, enospc, kmalloc,
  kfree, spin_lock, spin_unlock, put_buckets, bucket_count, kv_bucket,
}

-- `kmalloc_array` for the buckets and for their locks. A NULL table answers EINVAL, not -EINVAL.
unfoldable pub kv_hash_init : TablePtr → ℕ → Bool → Bool → Kernel → ℤ × Kernel
unfolding kmalloc kfree
kv_hash_init null bits buckets_ok locks_ok k = (pos einval, k)
kv_hash_init kv_store bits buckets_ok locks_ok k =
    let n = bucket_count bits in
    let cleared : HashTable = record { buckets = none; bucket_locks = none; bits = 0 } in
    let k₁ = kmalloc buckets_ok k in
    if not buckets_ok
    then (neg enomem, record k₁ { table = cleared })
    else let k₂ = kmalloc locks_ok k₁ in
      if not locks_ok then (neg enomem, record (kfree k₂) { table = cleared }) else (
        pos 0,
        record k₂ {
          table = record { buckets = some (replicate n []); bucket_locks = some n; bits = bits };
        },
      )

-- Each entry of a chain is unlinked, and its string and its node are freed.
unfoldable pub destroy_chain : Chain → Kernel → Kernel
unfolding kfree
destroy_chain [] k = k
destroy_chain (e ∷ c) k = destroy_chain c (kfree (kfree k))

unfoldable pub destroy_chains : ℕ → ℕ → List Chain → Kernel → Kernel
unfolding destroy_chain get_or
destroy_chains zero bucket bs k = k
destroy_chains (suc rounds) bucket bs k =
    destroy_chains rounds (suc bucket) bs (destroy_chain (get_or bs bucket []) k)

-- `none`: the loop read `ht->buckets[0]` through a NULL array. The lock array is not freed.
unfoldable pub kv_hash_destroy : TablePtr → Kernel → Option Kernel
unfolding destroy_chains kfree
kv_hash_destroy null k = some k
kv_hash_destroy kv_store k = elim k.table.buckets [
  | none ↦ none
  | some bs ↦
      let k' = kfree (destroy_chains (bucket_count k.table.bits) 0 bs k) in
      some (record k' { table = record k'.table { buckets = none; bits = 0 } })
]

-- The code and what `out_buf` holds afterwards.
unfoldable pub lookup_locked : Chain → ℕ → List ℕ → ℕ → ℤ × List ℕ
unfolding find overwrite
lookup_locked chain key out_buf out_buflen = elim (find key chain) [
  | some value ↦
      if ltb out_buflen (length value + 1)
      then (neg enospc, out_buf)
      else (pos (length value), overwrite (value ++ 0 ∷ []) out_buf)
  | none ↦ (neg enoent, out_buf)
]

module _ ⦃hashing : Hashing⦄ where
  -- Under the lock of `bucket`: update the entry with the key, or link a new one at the head.
  unfoldable pub add_locked : ℕ → List Chain → ℕ → List ℕ → Bool → Kernel → ℤ × Kernel
  unfolding find assign kmalloc kfree spin_unlock put_buckets get_or set
  add_locked bucket bs key newstr node_ok k =
      let chain = get_or bs bucket [] in
      elim (find key chain) [
        | some old ↦ (
          pos 0,
          spin_unlock bucket (put_buckets (set bs bucket (assign key newstr chain)) (kfree k)),
        )
        | none ↦
            let k' = kmalloc node_ok k in
            if not node_ok then (neg enomem, spin_unlock bucket (kfree k')) else (
              pos 0,
              spin_unlock bucket
                  (put_buckets (set bs bucket (record { key = key; value = newstr } ∷ chain)) k'),
            )
      ]

  -- `value` is the memory that the pointer leads to; `kstrdup` copies it up to its first NUL.
  unfoldable pub kv_hash_add : TablePtr → ℕ → Option (List ℕ) → Bool → Bool → Kernel → ℤ × Kernel
  unfolding add_locked c_string kmalloc spin_lock kv_bucket
  kv_hash_add null key value dup_ok node_ok k = (neg einval, k)
  kv_hash_add kv_store key none dup_ok node_ok k = (neg einval, k)
  kv_hash_add kv_store key (some value) dup_ok node_ok k = elim k.table.buckets [
    | none ↦ (neg einval, k)
    | some bs ↦
        let k' = kmalloc dup_ok k in
        let bucket = kv_bucket k.table key in
        if not dup_ok
        then (neg enomem, k')
        else add_locked bucket bs key (c_string value) node_ok (spin_lock bucket k')
  ]

  unfoldable pub remove_locked : ℕ → List Chain → ℕ → Kernel → ℤ × Kernel
  unfolding find unlink kfree spin_unlock put_buckets get_or set
  remove_locked bucket bs key k =
      let chain = get_or bs bucket [] in
      elim (find key chain) [
        | some old ↦ (
          pos 0,
          spin_unlock bucket (kfree (kfree (put_buckets (set bs bucket (unlink key chain)) k))),
        )
        | none ↦ (neg enoent, spin_unlock bucket k)
      ]

  unfoldable pub kv_hash_remove : TablePtr → ℕ → Kernel → ℤ × Kernel
  unfolding remove_locked spin_lock kv_bucket
  kv_hash_remove null key k = (neg einval, k)
  kv_hash_remove kv_store key k = elim k.table.buckets [
    | none ↦ (neg einval, k)
    | some bs ↦
        let bucket = kv_bucket k.table key in remove_locked bucket bs key (spin_lock bucket k)
  ]

  unfoldable pub kv_hash_lookup :
      TablePtr → ℕ → Option (List ℕ) → ℕ → Kernel → ℤ × Option (List ℕ) × Kernel
  unfolding lookup_locked spin_lock spin_unlock kv_bucket get_or
  kv_hash_lookup null key out_buf out_buflen k = (neg einval, out_buf, k)
  kv_hash_lookup kv_store key none out_buflen k = (neg einval, none, k)
  kv_hash_lookup kv_store key (some out_buf) out_buflen k = elim k.table.buckets [
    | none ↦ (neg einval, some out_buf, k)
    | some bs ↦
        if out_buflen == 0
        then (neg einval, some out_buf, k)
        else let bucket = kv_bucket k.table key in
          let k₁ = spin_lock bucket k in
          let (ret, written) = lookup_locked (get_or bs bucket []) key out_buf out_buflen in
          (ret, some written, spin_unlock bucket k₁)
  ]

-- `count++` for each entry.
unfoldable pub count_chain : Chain → ℕ → ℕ
count_chain [] count = count
count_chain (e ∷ c) count = count_chain c (count + 1)

unfoldable pub count_chains : ℕ → ℕ → List Chain → ℕ → Kernel → ℕ × Kernel
unfolding count_chain spin_lock spin_unlock get_or
count_chains zero bucket bs count k = (count, k)
count_chains (suc rounds) bucket bs count k =
    count_chains rounds (suc bucket) bs (count_chain (get_or bs bucket []) count)
      (spin_unlock bucket (spin_lock bucket k))

-- The counter is an `int`.
unfoldable pub kv_hash_count : TablePtr → Kernel → ℤ × Kernel
unfolding count_chains
kv_hash_count null k = (neg einval, k)
kv_hash_count kv_store k = elim k.table.buckets [
  | none ↦ (neg einval, k)
  | some bs ↦
      let (count, k') = count_chains (bucket_count k.table.bits) 0 bs 0 k in (to_int count, k')
]

-- `memset`, then `strscpy` of at most 63 bytes.
unfoldable pub message_of : Entry → KvMessage
unfolding put_text
message_of e = record {
  status = pos 0;
  key = e.key;
  value = put_text zero_value max_value_len e.value;
}

-- Copies a chain into `entries` from index `count` on; `true` means that the array was full.
unfoldable pub copy_chain : Chain → ℕ → List KvMessage → ℕ → Bool × List KvMessage × ℕ
unfolding message_of set
copy_chain [] max_entries entries count = (false, entries, count)
copy_chain (e ∷ c) max_entries entries count =
    if leb max_entries count
    then (true, entries, count)
    else copy_chain c max_entries (set entries count (message_of e)) (count + 1)

unfoldable pub copy_chains :
    ℕ → ℕ → List Chain → ℕ → List KvMessage → ℕ → Kernel → List KvMessage × ℕ × Kernel
unfolding copy_chain spin_lock spin_unlock get_or
copy_chains zero bucket bs max_entries entries count k = (entries, count, k)
copy_chains (suc rounds) bucket bs max_entries entries count k =
    let (full, entries', count') = copy_chain (get_or bs bucket []) max_entries entries count in
    let k' = spin_unlock bucket (spin_lock bucket k) in
    let rest = copy_chains rounds (suc bucket) bs max_entries entries' count' k' in
    if full then (entries', count', k') else rest

-- The code, the array, `*out_count` and the state. A pointer that is NULL is `none`.
unfoldable pub kv_hash_snapshot :
    TablePtr
    → Option (List KvMessage)
    → ℕ
    → Option ℕ
    → Kernel
    → ℤ × Option (List KvMessage) × Option ℕ × Kernel
unfolding copy_chains
kv_hash_snapshot null entries max_entries out_count k = (neg einval, entries, out_count, k)
kv_hash_snapshot kv_store none max_entries out_count k = (neg einval, none, out_count, k)
kv_hash_snapshot kv_store (some entries) max_entries none k = (neg einval, some entries, none, k)
kv_hash_snapshot kv_store (some entries) max_entries (some out_count) k = elim k.table.buckets [
  | none ↦ (neg einval, some entries, some out_count, k)
  | some bs ↦
      if max_entries == 0
      then (neg einval, some entries, some out_count, k)
      else let (entries', count, k') =
          copy_chains (bucket_count k.table.bits) 0 bs max_entries entries 0 k in
        (pos 0, some entries', some count, k')
]
