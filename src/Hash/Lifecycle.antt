-- ===== src/Hash/Lifecycle.antt =====
-- `kv_hash_init` and `kv_hash_destroy` of kernel/kv_hash.c.
use kvstore_lkm.Prelude.{
  ℕ, zero, suc, ◌+◌, ◌-◌, ◌*◌, ◌^◌, ◌<◌, ◌≡◌, refl, ◌∙◌, Bool, true, false, ◌&&◌, none, some, List,
  [], ◌∷◌, arith, pos, neg, length, get_or, drop, flatten, length-append, replicate,
  length-replicate, get_or-replicate,
}
use kvstore_lkm.Hash.Chain.{Entry, Chain, find, occurs}
use kvstore_lkm.Hash.Table.{
  Hashing, HashTable, kv_store, Kernel, IsValid, bucket_count, enomem, kfree,
}
use kvstore_lkm.Hash.Ops.{kv_hash_init, kv_hash_destroy, destroy_chain, destroy_chains}
use kvstore_lkm.Hash.View.{contents}
use kvstore_lkm.Hash.Count.{drop_here, bucket_count_small, rounds_of}

flatten-replicate : (n : ℕ) → flatten {A = Entry} (replicate n []) ≡ []
unfolding flatten replicate
flatten-replicate zero = refl
flatten-replicate (suc n) = flatten-replicate n

abbrev pub no_table : HashTable
no_table = record { buckets = none; bucket_locks = none; bits = 0 }

-- The table that `kv_hash_init` builds, with `n` buckets.
abbrev pub empty_table : ℕ → ℕ → HashTable
empty_table n bits = record { buckets = some (replicate n []); bucket_locks = some n; bits = bits }

init_run :
    (bits : ℕ) (k : Kernel)
    → k.held ≡ []
    → kv_hash_init kv_store bits true true k ≡ (
      pos 0,
      record {
        table = empty_table (bucket_count bits) bits;
        live = k.live + 1 + 1;
        held = [];
        slept = k.slept;
      },
    )
unfolding kv_hash_init
init_run bits k unlocked = ground arith

module _ ⦃hashing : Hashing⦄ (bits : ℕ) (positive : 0 < bits) (small : bits < 32) (k : Kernel) where
  empty-IsValid :
      (slept : Bool)
      → IsValid k.live
          (record {
            table = empty_table (2 ^ bits) bits;
            live = k.live + 1 + 1;
            held = [];
            slept = slept;
          })
          (replicate (2 ^ bits) [])
  unfolding occurs
  empty-IsValid slept = record {
    ready = refl;
    locks = refl;
    some_bits = positive;
    few_bits = small;
    width = length-replicate (2 ^ bits) [];
    placed = λ q i. rw get_or-replicate (omega arith, λ _. refl);
    strings = λ i. rw get_or-replicate tt;
    balanced = rw flatten-replicate (omega arith);
    unlocked = refl;
  }

  -- With 1 to 31 bits, both allocations succeeding and no lock held, `kv_hash_init` answers 0 and
  -- makes a valid table of 2^bits empty buckets, in which no key is found, whatever the table held
  -- before.
  pub init_succeeds :
      k.held ≡ []
      → ((kv_hash_init kv_store bits true true k).0 ≡ pos 0)
        × IsValid k.live (kv_hash_init kv_store bits true true k).1 (replicate (2 ^ bits) [])
        × ((q : ℕ) → contents (kv_hash_init kv_store bits true true k).1 q ≡ none)
  unfolding find
  init_succeeds unlocked =
      rw (init_run bits k unlocked, bucket_count_small bits small)
        (refl, empty-IsValid k.slept, λ q. rw get_or-replicate refl)

-- If one of its two allocations fails, `kv_hash_init` answers -ENOMEM, keeps no block, and leaves
-- the table without arrays.
pub init_fails :
    (bits : ℕ) (buckets_ok locks_ok : Bool) (k : Kernel)
    → (buckets_ok && locks_ok) ≡ false
    → ((kv_hash_init kv_store bits buckets_ok locks_ok k).0 ≡ neg enomem)
      × ((kv_hash_init kv_store bits buckets_ok locks_ok k).1.table ≡ no_table)
      × ((kv_hash_init kv_store bits buckets_ok locks_ok k).1.live ≡ k.live)
unfolding kv_hash_init
init_fails bits buckets_ok locks_ok k h = ground arith

destroy_chain_lem :
    (c : Chain) (k : Kernel) → destroy_chain c k ≡ record k { live = k.live - 2 * length c }
unfolding destroy_chain
destroy_chain_lem [] k = ground arith
destroy_chain_lem (e ∷ c) k = ground (arith, destroy_chain_lem c (unfold kfree in kfree (kfree k)))

destroy_chains_lem :
    (rest : List Chain) (b : ℕ) (bs : List Chain) (k : Kernel)
    → drop b bs ≡ rest
    → destroy_chains (length rest) b bs k ≡ record k { live = k.live - 2 * length (flatten rest) }
destroy_chains_lem [] b bs k h = unfold destroy_chains flatten in ground arith
destroy_chains_lem (c ∷ rest) b bs k h =
    let (here, later) = drop_here b bs c rest h in
    let round : destroy_chains (suc (length rest)) b bs k
        ≡ destroy_chains (length rest) (suc b) bs (destroy_chain (get_or bs b []) k) =
      unfold destroy_chains in refl in
    round
    ∙ rw
        (
          here,
          destroy_chain_lem c k,
          destroy_chains_lem rest (suc b) bs (record k { live = k.live - 2 * length c }) later,
        )
        (unfold flatten in rw length-append (ground arith))

module _ ⦃hashing : Hashing⦄ {others : ℕ} {k : Kernel} {bs : List Chain}
    (valid : IsValid others k bs) where
  destroy_run :
      (k' : Kernel)
      → destroy_chains (bucket_count k.table.bits) 0 bs k ≡ k'
      → kv_hash_destroy kv_store k
        ≡ some
            (record k' { table = record k'.table { buckets = none; bits = 0 }; live = k'.live - 1 })
  unfolding kv_hash_destroy
  destroy_run k' e = ground (arith, valid.ready)

  -- `kv_hash_destroy` of a valid table ends, frees every entry and the bucket array, takes no lock,
  -- and leaves exactly one block of the table allocated: the array of locks.
  pub destroy_leaks_locks :
      (k' : Kernel) × (kv_hash_destroy kv_store k ≡ some k')
      × (k'.table.buckets ≡ none)
      × (k'.live ≡ others + 1)
      × (k'.held ≡ [])
  unfolding drop
  destroy_leaks_locks = (
    _,
    destroy_run (record k { live = k.live - 2 * length (flatten bs) })
        (rw (rounds_of valid) (destroy_chains_lem bs 0 bs k refl)),
    refl,
    omega (arith, valid.balanced),
    valid.unlocked,
  )

-- A second `kv_hash_destroy`, or one after a failed `kv_hash_init`, reads through the NULL array.
pub destroy_null : (k : Kernel) → k.table.buckets ≡ none → kv_hash_destroy kv_store k ≡ none
unfolding kv_hash_destroy
destroy_null k h = ground arith
