-- ===== src/Hash/Snapshot.antt =====
-- `kv_hash_snapshot` of kernel/kv_hash.c.
use kvstore_lkm.Prelude.{
  ℕ, zero, suc, ◌+◌, ◌-◌, ◌≤◌, ◌<◌, min, ◌≡◌, refl, ap, ◌∙◌, Bool, true, false, inl, inr,
  Bool-cases, Option, some, List, [], ◌∷◌, ◌++◌, arith, ltb, leb, if◌then◌else◌, ℤ, pos, length,
  get_or, set, take, drop, flatten, length-set,
}
use mathlib.Core.List.{map, append_assoc, append-nil}
use kvstore_lkm.Message.{KvMessage}
use kvstore_lkm.Hash.Chain.{Entry, Chain}
use kvstore_lkm.Hash.Table.{
  Hashing, kv_store, Kernel, IsValid, spin_lock, spin_unlock, bucket_count,
}
use kvstore_lkm.Hash.Ops.{kv_hash_snapshot, copy_chain, copy_chains, message_of}
use kvstore_lkm.Hash.Count.{drop_here, lock_unlock, rounds_of}

module _ {ℓ} {A : Type ℓ} where
  take-set :
      (xs : List A) (i : ℕ) (v : A)
      → i < length xs
      → take (i + 1) (set xs i v) ≡ take i xs ++ v ∷ []
  unfolding take set
  take-set [] i v h = absurd (omega arith)
  take-set (x ∷ xs) zero v h = refl
  take-set (x ∷ xs) (suc i) v h =
      let shift : suc i + 1 ≡ suc (i + 1) = omega arith in
      rw shift (ap (λ r. x ∷ r) (take-set xs i v (omega arith)))

  take_nil : (n : ℕ) → take {A = A} n [] ≡ []
  unfolding take
  take_nil zero = refl
  take_nil (suc n) = refl

  pub take_zero : (xs : List A) → take 0 xs ≡ []
  unfolding take
  take_zero xs = refl

abbrev pub messages : Chain → List KvMessage
messages = map message_of

-- What the loop over `c` leaves, from `count` on.
pub record Copied (c : Chain) (max_entries : ℕ) (entries : List KvMessage) (count : ℕ)
    (r : Bool × List KvMessage × ℕ) : Type 0 where
  pub full : r.0 ≡ ltb max_entries (count + length c)
  pub room : length r.1 ≡ length entries
  pub number : r.2 ≡ min max_entries (count + length c)
  pub copies : take r.2 r.1 ≡ take count entries ++ messages (take (max_entries - count) c)

copy_chain_stop :
    (e : Entry) (c : Chain) (max_entries : ℕ) (entries : List KvMessage) (count : ℕ)
    → leb max_entries count ≡ true
    → copy_chain (e ∷ c) max_entries entries count ≡ (true, entries, count)
unfolding copy_chain
copy_chain_stop e c max_entries entries count h = rw h

copy_chain_more :
    (e : Entry) (c : Chain) (max_entries : ℕ) (entries : List KvMessage) (count : ℕ)
    → leb max_entries count ≡ false
    → copy_chain (e ∷ c) max_entries entries count
      ≡ copy_chain c max_entries (set entries count (message_of e)) (count + 1)
copy_chain_more e c max_entries entries count h = unfold copy_chain in rw h

pub copy_chain-Copied :
    (c : Chain) (max_entries : ℕ) (entries : List KvMessage) (count : ℕ)
    → count ≤ max_entries
    → max_entries ≤ length entries
    → Copied c max_entries entries count (copy_chain c max_entries entries count)
copy_chain-Copied [] max_entries entries count h l =
    unfold copy_chain in
    record {
      full = ground arith;
      room = refl;
      number = omega arith;
      copies = rw (take_nil, append-nil);
    }
copy_chain-Copied (e ∷ c) max_entries entries count h l =
    elim (Bool-cases (leb max_entries count)) [
      | inl stop ↦
          let none_left : max_entries - count ≡ 0 = ground arith in
          rw (copy_chain_stop e c max_entries entries count stop) (record {
            full = ground arith;
            room = refl;
            number = ground arith;
            copies = rw (none_left, take_zero, append-nil);
          })
      | inr more ↦
          let message = message_of e in
          let rest =
            copy_chain-Copied c max_entries (set entries count message) (count + 1) (ground arith)
              (rw length-set l) in
          let some_left : max_entries - count ≡ suc (max_entries - (count + 1)) = ground arith in
          rw (copy_chain_more e c max_entries entries count more) (record {
            full = rest.full ∙ ground arith;
            room = rest.room ∙ length-set entries count message;
            number = rest.number ∙ omega arith;
            copies =
                rest.copies
                ∙ rw (take-set entries count message (ground arith), some_left, append_assoc)
                    (unfold take in refl);
          })
    ]

pub copy_chain-append :
    (a b : Chain) (max_entries : ℕ) (entries : List KvMessage) (count : ℕ)
    → copy_chain (a ++ b) max_entries entries count ≡ (
        let r = copy_chain a max_entries entries count in
        if r.0 then r else copy_chain b max_entries r.1 r.2)
unfolding copy_chain
copy_chain-append [] b max_entries entries count = refl
copy_chain-append (e ∷ a) b max_entries entries count =
    ground (arith, copy_chain-append a b max_entries (set entries count (message_of e)) (count + 1))

-- One round of the loop: the chain is copied under its lock, and a full array ends it.
copy_chains_step :
    (r b : ℕ) (bs : List Chain) (max_entries : ℕ) (entries : List KvMessage) (count : ℕ)
    (k : Kernel)
    → copy_chains (suc r) b bs max_entries entries count k ≡ (
        let s = copy_chain (get_or bs b []) max_entries entries count in
        if s.0 then (s.1, s.2, k) else copy_chains r (suc b) bs max_entries s.1 s.2 k)
copy_chains_step r b bs max_entries entries count k =
    let s = copy_chain (get_or bs b []) max_entries entries count in
    let k' = spin_unlock b (spin_lock b k) in
    let round : copy_chains (suc r) b bs max_entries entries count k
        ≡ (if s.0 then (s.1, s.2, k') else copy_chains r (suc b) bs max_entries s.1 s.2 k') =
      unfold copy_chains in refl in
    rw lock_unlock at round

pub flatten-cons : (c : Chain) (rest : List Chain) → flatten (c ∷ rest) ≡ c ++ flatten rest
unfolding flatten
flatten-cons c rest = refl

results_if :
    (full : Bool) (r s : Bool × List KvMessage × ℕ) (k : Kernel)
    → ◌≡◌ {A = List KvMessage × ℕ × Kernel}
        (if full then (r.1, r.2, k) else (s.1, s.2, k))
        ((if full then r else s).1, (if full then r else s).2, k)
results_if true r s k = refl
results_if false r s k = refl

-- The two nested loops are one loop over all the entries.
copy_chains_lem :
    (rest : List Chain) (b : ℕ) (bs : List Chain) (max_entries : ℕ) (entries : List KvMessage)
    (count : ℕ) (k : Kernel)
    → drop b bs ≡ rest
    → copy_chains (length rest) b bs max_entries entries count k
      ≡ (let r = copy_chain (flatten rest) max_entries entries count in (r.1, r.2, k))
copy_chains_lem [] b bs max_entries entries count k h =
    unfold copy_chains flatten copy_chain in refl
copy_chains_lem (c ∷ rest) b bs max_entries entries count k h =
    let (here, later) = drop_here b bs c rest h in
    let s = copy_chain c max_entries entries count in
    rw
      (
        copy_chains_step (length rest) b bs max_entries entries count k,
        here,
        copy_chains_lem rest (suc b) bs max_entries s.1 s.2 k later,
        flatten-cons c rest,
        copy_chain-append,
      )
      (results_if s.0 s (copy_chain (flatten rest) max_entries s.1 s.2) k)

-- What `kv_hash_snapshot` answers: the code, how many messages it wrote, and that the array then
-- begins with these.
pub record Snapshot (k : Kernel) (bs : List Chain) (max_entries : ℕ) (entries : List KvMessage)
    (r : ℤ × Option (List KvMessage) × Option ℕ × Kernel) : Type 0 where
  pub array : List KvMessage
  pub count : ℕ
  pub runs : r ≡ (pos 0, some array, some count, k)
  pub room : length array ≡ length entries
  pub number : count ≡ min max_entries (length (flatten bs))
  pub copies : take count array ≡ messages (take max_entries (flatten bs))

module _ ⦃hashing : Hashing⦄ {others : ℕ} {k : Kernel} {bs : List Chain}
    (valid : IsValid others k bs) where
  snapshot_run :
      (max_entries : ℕ) (entries : List KvMessage) (out_count : ℕ)
      → 0 < max_entries
      → (reply : List KvMessage × ℕ × Kernel)
      → copy_chains (bucket_count k.table.bits) 0 bs max_entries entries 0 k ≡ reply
      → kv_hash_snapshot kv_store (some entries) max_entries (some out_count) k
        ≡ (pos 0, some reply.0, some reply.1, reply.2)
  unfolding kv_hash_snapshot
  snapshot_run max_entries entries out_count h reply e = ground (arith, valid.ready)

  -- On a valid table, a snapshot with a limit above 0 into an array of at least that many messages
  -- answers 0 and does not change the length of the array. It reports how many messages it wrote,
  -- the smaller of the limit and the number of entries, and these are the entries in table order.
  -- The table does not change.
  pub kv_hash_snapshot_lem :
      (max_entries : ℕ) (entries : List KvMessage) (out_count : ℕ)
      → 0 < max_entries
      → max_entries ≤ length entries
      → Snapshot k bs max_entries entries
          (kv_hash_snapshot kv_store (some entries) max_entries (some out_count) k)
  unfolding drop
  kv_hash_snapshot_lem max_entries entries out_count h room =
      let all = copy_chain (flatten bs) max_entries entries 0 in
      let copied = copy_chain-Copied (flatten bs) max_entries entries 0 (omega arith) room in
      let start : drop 0 bs ≡ bs = refl in
      record {
        array = all.1;
        count = all.2;
        runs =
            snapshot_run max_entries entries out_count h (all.1, all.2, k)
              (rw (rounds_of valid) (copy_chains_lem bs 0 bs max_entries entries 0 k start));
        room = copied.room;
        number = copied.number ∙ omega arith;
        copies =
            copied.copies
            ∙ (let less : max_entries - 0 ≡ max_entries = omega arith in
                rw (take_zero entries, less));
      }
