-- ===== src/Tests/Walk.antt =====
-- Snapshots of kernel/kv_hash.c among threads, at small inputs.
use kvstore_lkm.Prelude.{
  ℕ, ◌^◌, sym, flatten, ◌<◌, ◌≡◌, refl, none, some, List, [], ◌∷◌, arith, pos, replicate, take,
}
use kvstore_lkm.Message.{KvMessage, KvSnapshotMessage}
use kvstore_lkm.Hash.Chain.{Entry}
use kvstore_lkm.Hash.View.{contents, entry_total}
use kvstore_lkm.Hash.Export.{cut, find_message}
use kvstore_lkm.Text.{overwrite}
use kvstore_lkm.Hash.Ops.{copy_chain, kv_hash_lookup, lookup_locked}
use kvstore_lkm.Device.Interleave.{
  inserting, deleting, Thread, interleave, one_step, next_section, section_at, check_insert,
  store_value,
}
use kvstore_lkm.Device.Interleave.Race.{fresh_thread}
use kvstore_lkm.Device.Walk.{Gaps, copy_among, handle_kv_snapshot_paused, kv_hash_snapshot_among}
use kvstore_lkm.Device.Walk.Snapshot.{Written, snapshot-Written}
use kvstore_lkm.Device.Walk.Untouched.{snapshot_untouched}
use kvstore_lkm.Device.Walk.Torn.{two_inserts, inserts_before, snapshot_torn}
use kvstore_lkm.Device.Walk.Dropped.{snapshot_drops}
use kvstore_lkm.Tests.World.{
  one_total, low_bits, program, hi, one, one-IsValid, empty, empty-IsValid, empty_lacks, blank,
  calm, calm-IsLucky,
}

abbrev four_hi : KvMessage
four_hi = record { status = pos 0; key = 4; value = hi }

abbrev three_hi : KvMessage
three_hi = record { status = pos 0; key = 3; value = hi }

abbrev writers : List Thread
writers = fresh_thread inserting calm four_hi ∷ fresh_thread deleting calm four_hi ∷ []

abbrev turns : Gaps
turns bucket = 0 ∷ 1 ∷ []

abbrev room : List KvMessage
room = replicate 3 blank

snapshot-Written_example :
    Written turns writers one 3 room (kv_hash_snapshot_among turns room 3 0 writers one)
unfolding replicate
snapshot-Written_example =
    snapshot-Written one-IsValid turns writers room 3 0 (omega arith) (omega arith)

snapshot_untouched_example :
    let r = kv_hash_snapshot_among turns room 3 0 writers one in
    ((v : List ℕ) → find_message 3 (take r.2 r.1) ≡ some v → cut (contents one 3) ≡ some v)
    × (r.2 < 3 → find_message 3 (take r.2 r.1) ≡ cut (contents one 3))
unfolding replicate
snapshot_untouched_example =
    snapshot_untouched one-IsValid turns writers 3 (refl, (refl, tt)) room 3 0 (omega arith)
      (omega arith)

-- One entry is found.
torn_count :
    (kv_hash_snapshot_among
      (inserts_before 1)
      room
      3
      0
      (two_inserts calm calm four_hi three_hi)
      empty).2
    ≡ 1
unfolding program kv_hash_snapshot_among copy_among copy_chain interleave one_step next_section
    section_at check_insert store_value kv_hash_lookup lookup_locked overwrite
torn_count = refl

snapshot_torn_example :
    let ts = two_inserts calm calm four_hi three_hi in
    let r = kv_hash_snapshot_among (inserts_before 1) room 3 0 ts empty in
    let between = interleave (0 ∷ 0 ∷ []) ts empty in
    (contents between.1 4 ≡ some (104 ∷ 105 ∷ []))
    × (contents between.1 3 ≡ none)
    × (find_message 4 (take r.2 r.1) ≡ none)
    × (find_message 3 (take r.2 r.1) ≡ some (104 ∷ 105 ∷ []))
unfolding program take
snapshot_torn_example =
    snapshot_torn empty-IsValid calm calm four_hi three_hi room 3 0 calm-IsLucky calm-IsLucky
      (empty_lacks 4) (empty_lacks 3) (omega arith) (omega arith) (omega arith)
      (omega (arith, torn_count))

abbrev one_room : KvSnapshotMessage
one_room = record { status = pos 0; capacity = 1; count = 0; entries = blank ∷ [] }

abbrev four_entry : Entry
four_entry = record { key = 4; value = 104 ∷ 105 ∷ [] }

abbrev three_entry : Entry
three_entry = record { key = 3; value = 104 ∷ 105 ∷ [] }

one_few : entry_total one < 2 ^ 31
one_few = omega (arith, one_total)

four_inserted :
    (interleave (0 ∷ 0 ∷ []) writers one).1.table.buckets
    ≡ some ((four_entry ∷ []) ∷ (three_entry ∷ []) ∷ [])
unfolding program interleave one_step next_section section_at check_insert store_value
    kv_hash_lookup lookup_locked overwrite
four_inserted = refl

snapshot_drops_example :
    let r = handle_kv_snapshot_paused calm (0 ∷ 0 ∷ []) one_room writers one in
    (r.0 ≡ pos 0)
    × (r.1.count ≡ entry_total one)
    × (find_message 3 (take r.1.count r.1.entries) ≡ none)
    × (contents r.3 3 ≡ some (104 ∷ 105 ∷ []))
unfolding flatten
snapshot_drops_example =
    snapshot_drops one-IsValid one_few calm (0 ∷ 0 ∷ []) one_room writers
      ((four_entry ∷ []) ∷ (three_entry ∷ []) ∷ []) (four_entry ∷ []) three_entry calm-IsLucky refl
      (sym one_total) (omega (arith, one_total)) four_inserted refl (sym one_total)
