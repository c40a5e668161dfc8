-- ===== src/Device/Interleave/Bits.antt =====
-- The handlers of kernel/kvlkm.c leave the number of buckets alone.
use kvstore_lkm.Prelude.{
  ℕ, zero, suc, ◌≡◌, refl, ◌∙◌, Bool, Option, none, some, List, [], ◌∷◌, ◌++◌, arith,
}
use kvstore_lkm.Message.{max_value_len, zero_value}
use kvstore_lkm.Hash.Table.{Hashing, kv_store, Kernel}
use kvstore_lkm.Hash.Ops.{kv_hash_add, kv_hash_remove, kv_hash_lookup, add_locked, remove_locked}
use kvstore_lkm.Device.Handlers.{handle_get, handle_delete}
use kvstore_lkm.Device.Interleave.{
  Phase, start, checked, done, Handler, inserting, updating, getting, deleting, Thread,
  check_insert, check_update, store_value, section_at, next_section, one_step, interleave,
}

module _ ⦃hashing : Hashing⦄ where
  lookup_bits :
      (key : ℕ) (out : Option (List ℕ)) (n : ℕ) (k : Kernel)
      → (kv_hash_lookup kv_store key out n k).2.table.bits ≡ k.table.bits
  unfolding kv_hash_lookup
  lookup_bits key none n k = refl
  lookup_bits key (some out) n k = ground arith

  add_bits :
      (key : ℕ) (value : Option (List ℕ)) (dup_ok node_ok : Bool) (k : Kernel)
      → (kv_hash_add kv_store key value dup_ok node_ok k).1.table.bits ≡ k.table.bits
  unfolding kv_hash_add add_locked
  add_bits key none dup_ok node_ok k = refl
  add_bits key (some value) dup_ok node_ok k = ground arith

  remove_bits : (key : ℕ) (k : Kernel) → (kv_hash_remove kv_store key k).1.table.bits ≡ k.table.bits
  unfolding kv_hash_remove remove_locked
  remove_bits key k = ground arith

  section_bits :
      (p : Phase) (h : Handler) (t : Thread) (k : Kernel)
      → (section_at p h t k).1.table.bits ≡ k.table.bits
  unfolding section_at check_insert check_update store_value handle_get handle_delete
  section_bits start inserting t k =
      ground (arith, lookup_bits t.message.key (some zero_value) max_value_len k)
  section_bits start updating t k =
      ground (arith, lookup_bits t.message.key (some zero_value) max_value_len k)
  section_bits start getting t k =
      ground (arith, lookup_bits t.message.key (some zero_value) max_value_len k)
  section_bits start deleting t k = ground (arith, remove_bits t.message.key k)
  section_bits checked h t k = ground (
    arith,
    add_bits t.message.key (some (t.message.value ++ t.env.beyond)) t.env.dup_ok t.env.node_ok k,
  )
  section_bits done h t k = refl

  step_bits :
      (i : ℕ) (ts : List Thread) (k : Kernel) → (one_step i ts k).1.table.bits ≡ k.table.bits
  unfolding one_step next_section
  step_bits i [] k = refl
  step_bits zero (t ∷ ts) k = section_bits t.phase t.handler t k
  step_bits (suc i) (t ∷ ts) k = step_bits i ts k

  -- Whatever the threads do.
  pub interleave_bits :
      (is : List ℕ) (ts : List Thread) (k : Kernel)
      → (interleave is ts k).1.table.bits ≡ k.table.bits
  unfolding interleave
  interleave_bits [] ts k = refl
  interleave_bits (i ∷ is) ts k =
      interleave_bits is (one_step i ts k).0 (one_step i ts k).1 ∙ step_bits i ts k
