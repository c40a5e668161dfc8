-- ===== src/Hash/Count.antt =====
-- `kv_hash_count` of kernel/kv_hash.c.
use kvstore_lkm.Prelude.{
  ℕ, zero, suc, ◌+◌, ◌^◌, ◌<◌, ◌≡◌, refl, sym, ◌∙◌, List, [], ◌∷◌, arith, to_int, length, get_or,
  drop, flatten, length-append,
}
use kvstore_lkm.Hash.Chain.{Chain}
use kvstore_lkm.Hash.Table.{
  Hashing, kv_store, Kernel, IsValid, spin_lock, spin_unlock, bucket_count,
}
use kvstore_lkm.Hash.Ops.{kv_hash_count, count_chain, count_chains}
use kvstore_lkm.Hash.View.{entry_total, entry_total-IsValid}
use native.Mathlib.Nat.{pow-le-pow_right}

pub drop_here :
    (b : ℕ) (bs : List Chain) (c : Chain) (rest : List Chain)
    → drop b bs ≡ c ∷ rest
    → (get_or bs b [] ≡ c) × (drop (suc b) bs ≡ rest)
unfolding drop get_or
drop_here zero [] c rest h = ground arith
drop_here zero (x ∷ bs) c rest h = ground arith
drop_here (suc b) [] c rest h = ground arith
drop_here (suc b) (x ∷ bs) c rest h = drop_here b bs c rest h

pub lock_unlock : (b : ℕ) (k : Kernel) → spin_unlock b (spin_lock b k) ≡ k
unfolding spin_lock spin_unlock
lock_unlock b k = ground arith

-- `1U << bits` does not wrap below 32 bits.
pub bucket_count_small : (bits : ℕ) → bits < 32 → bucket_count bits ≡ 2 ^ bits
bucket_count_small bits h =
    let bound = pow-le-pow_right {n = 2} (omega arith) {i = bits} {j = 31} (omega arith) in
    omega (arith, bound)

pub count_chain_lem : (c : Chain) (n : ℕ) → count_chain c n ≡ n + length c
unfolding count_chain
count_chain_lem [] n = omega arith
count_chain_lem (e ∷ c) n = omega (arith, count_chain_lem c (n + 1))

-- One round of the loop: the chain is counted, and its lock is taken and given back.
count_chains_step :
    (r b : ℕ) (bs : List Chain) (n : ℕ) (k : Kernel)
    → count_chains (suc r) b bs n k ≡ count_chains r (suc b) bs (n + length (get_or bs b [])) k
count_chains_step r b bs n k =
    let round : count_chains (suc r) b bs n k
        ≡ count_chains r (suc b) bs (count_chain (get_or bs b []) n)
            (spin_unlock b (spin_lock b k)) =
      unfold count_chains in refl in
    rw (count_chain_lem, lock_unlock) at round

count_chains_lem :
    (rest : List Chain) (b : ℕ) (bs : List Chain) (n : ℕ) (k : Kernel)
    → drop b bs ≡ rest
    → count_chains (length rest) b bs n k ≡ (n + length (flatten rest), k)
count_chains_lem [] b bs n k h = unfold count_chains flatten in ground arith
count_chains_lem (c ∷ rest) b bs n k h =
    let (here, later) = drop_here b bs c rest h in
    rw
      (
        count_chains_step (length rest) b bs n k,
        here,
        count_chains_lem rest (suc b) bs (n + length c) k later,
      )
      (unfold flatten in rw length-append (ground arith))

module _ ⦃hashing : Hashing⦄ {others : ℕ} {k : Kernel} {bs : List Chain}
    (valid : IsValid others k bs) where
  -- All buckets, by their number in the table.
  pub rounds_of : bucket_count k.table.bits ≡ length bs
  rounds_of = bucket_count_small k.table.bits valid.few_bits ∙ sym valid.width

  count_run :
      (reply : ℕ × Kernel)
      → count_chains (bucket_count k.table.bits) 0 bs 0 k ≡ reply
      → kv_hash_count kv_store k ≡ (to_int reply.0, reply.1)
  unfolding kv_hash_count
  count_run reply e = ground (arith, valid.ready)

  -- On a valid table, `kv_hash_count` answers the number of entries, wrapped to an `int`, and
  -- changes nothing.
  pub kv_hash_count_lem : kv_hash_count kv_store k ≡ (to_int (entry_total k), k)
  unfolding drop
  kv_hash_count_lem = rw (entry_total-IsValid valid) (
      count_run (length (flatten bs), k)
        (rw rounds_of (rw (count_chains_lem bs 0 bs 0 k refl) (ground arith))))
