-- ===== src/Tests/Hash.antt =====
-- The table of kernel/kv_hash.c at small inputs.
use kvstore_lkm.Prelude.{◌≡◌, ◌≤◌, true, none, some, [], ◌∷◌, arith, pos, neg, flatten, take}
use kvstore_lkm.Hash.Table.{kv_store}
use kvstore_lkm.Hash.Ops.{kv_hash_add, kv_hash_remove, kv_hash_lookup, kv_hash_snapshot}
use kvstore_lkm.Hash.View.{Puts}
use kvstore_lkm.Hash.Add.{kv_hash_add_lem}
use kvstore_lkm.Hash.Remove.{kv_hash_remove_lem}
use kvstore_lkm.Hash.Lookup.{kv_hash_lookup_lem}
use kvstore_lkm.Hash.Snapshot.{Snapshot, messages, kv_hash_snapshot_lem}
use kvstore_lkm.Hash.Export.{find_message, key_count, snapshot_contents}
use kvstore_lkm.Tests.World.{
  low_bits, program, empty, empty-IsValid, hi, one, one-IsValid, one_chains, blank,
}

kv_hash_add_lem_example :
    ((kv_hash_add kv_store 3 (some hi) true true empty).0 ≡ pos 0)
    × Puts 5 empty 3 (some (104 ∷ 105 ∷ [])) one
unfolding program
kv_hash_add_lem_example = kv_hash_add_lem empty-IsValid 3 hi true true

kv_hash_remove_lem_example :
    ((kv_hash_remove kv_store 3 one).0 ≡ pos 0)
    × Puts 5 one 3 none (kv_hash_remove kv_store 3 one).1
unfolding program
kv_hash_remove_lem_example = kv_hash_remove_lem one-IsValid 3

kv_hash_lookup_lem_example :
    kv_hash_lookup kv_store 3 (some (9 ∷ 9 ∷ [])) 2 one ≡ (neg 28, some (9 ∷ 9 ∷ []), one)
unfolding program
kv_hash_lookup_lem_example = kv_hash_lookup_lem one-IsValid 3 (9 ∷ 9 ∷ []) 2 (omega arith)

kv_hash_snapshot_lem_example :
    Snapshot one one_chains 2
      (blank ∷ blank ∷ blank ∷ [])
      (kv_hash_snapshot kv_store (some (blank ∷ blank ∷ blank ∷ [])) 2 (some 0) one)
kv_hash_snapshot_lem_example =
    kv_hash_snapshot_lem one-IsValid 2 (blank ∷ blank ∷ blank ∷ []) 0 (omega arith) (omega arith)

snapshot_contents_example :
    (find_message 3 (messages (flatten one_chains)) ≡ some (104 ∷ 105 ∷ []))
    × (key_count 3 (messages (flatten one_chains)) ≤ 1)
unfolding program take
snapshot_contents_example = snapshot_contents one-IsValid 3
