-- ===== src/Device/Walk/Snapshot.antt =====
-- What `kv_hash_count` and `kv_hash_snapshot` of kernel/kv_hash.c answer while other threads change
-- the table.
use kvstore_lkm.Prelude.{
  ℕ, false, zero, suc, ◌+◌, ◌-◌, ◌^◌, ◌≤◌, ◌<◌, ◌≡◌, refl, sym, ap, ◌∙◌, inl, inr, Option-cases,
  none, some, List, [], ◌∷◌, arith, ◌==◌, length, flatten, take, take_all, min, ℤ, pos, to_int,
}
use mathlib.Core.Path.{subst}
use kvstore_lkm.Message.{KvMessage}
use kvstore_lkm.Hash.Chain.{Chain, find, occurs, AllStrings}
use kvstore_lkm.Hash.Table.{Hashing, Kernel, IsValid, bucket_count}
use kvstore_lkm.Hash.Ops.{copy_chain}
use kvstore_lkm.Hash.View.{contents}
use kvstore_lkm.Hash.Count.{bucket_count_small}
use kvstore_lkm.Hash.Snapshot.{messages, take_zero, copy_chain-Copied}
use kvstore_lkm.Hash.Export.{
  cut, find_message, key_count, find_message-messages, key_count-messages,
}
use kvstore_lkm.Device.Interleave.{Thread}
use kvstore_lkm.Device.Walk.{
  Gaps, count_among, count_from, kv_hash_count_among, copy_among, copy_from, kv_hash_snapshot_among,
}
use kvstore_lkm.Device.Walk.Moments.{moment, count_among_lem, copy_among_lem, written_by}
use kvstore_lkm.Device.Walk.Sees.{found_chains, found-Sees}

-- What stands in the first entries of a chain stands in the chain.
find-take : (q n : ℕ) (c : Chain) (v : List ℕ) → find q (take n c) ≡ some v → find q c ≡ some v
unfolding find take
find-take q zero c v h = ground arith
find-take q (suc n) [] v h = h
find-take q (suc n) (e ∷ c) v h = ground (arith, find-take q n c v)

occurs-take : (q n : ℕ) (c : Chain) → occurs q (take n c) ≤ occurs q c
unfolding occurs take
occurs-take q zero c = omega arith
occurs-take q (suc n) [] = omega arith
occurs-take q (suc n) (e ∷ c) = omega (arith, occurs-take q n c)

pub AllStrings-take : (n : ℕ) (c : Chain) → AllStrings c → AllStrings (take n c)
unfolding take
AllStrings-take zero c h = tt
AllStrings-take (suc n) [] h = tt
AllStrings-take (suc n) (e ∷ c) h = (h.0, AllStrings-take n c h.1)

-- The messages of the first entries of a chain are true of the chain.
messages_true :
    (q n : ℕ) (c : Chain) (v : List ℕ)
    → AllStrings c
    → find_message q (messages (take n c)) ≡ some v
    → cut (find q c) ≡ some v
messages_true q n c v strings h =
    let read = find_message-messages q (take n c) (AllStrings-take n c strings) in
    elim (Option-cases (find q (take n c))) [
      | inl absent ↦
          let nothing : none ≡ some v = sym (read ∙ ap cut absent) ∙ h in ground (arith, nothing)
      | inr (w, there) ↦ ap cut (find-take q n c w there) ∙ sym (read ∙ ap cut there) ∙ h
    ]

module _ ⦃hashing : Hashing⦄ where
  -- What a walk wrote: at most so many messages of all that it found, which a count in its place
  -- would answer; each key at most once, and only with the value that it had when the walk was at
  -- its bucket; and all such keys, if the walk found no more of them than fit.
  pub record Written (gaps : Gaps) (ts : List Thread) (k : Kernel) (max_entries : ℕ)
      (entries : List KvMessage) (r : ℤ × List KvMessage × ℕ × List Thread × Kernel) : Type 0 where
    pub code : r.0 ≡ pos 0
    pub room : length r.1 ≡ length entries
    pub total : ℕ
    pub number : r.2 ≡ min max_entries total
    pub counted : (kv_hash_count_among gaps ts k).0 ≡ to_int total
    pub once : (q : ℕ) → key_count q (take r.2 r.1) ≤ 1
    pub sound :
        (q : ℕ) (v : List ℕ)
        → find_message q (take r.2 r.1) ≡ some v
        → cut (contents (moment gaps (hashing.hash_min q k.table.bits) ts k) q) ≡ some v
    pub complete :
        (q : ℕ)
        → total ≤ max_entries
        → find_message q (take r.2 r.1)
          ≡ cut (contents (moment gaps (hashing.hash_min q k.table.bits) ts k) q)

  module _ {others : ℕ} {k : Kernel} {bs : List Chain} (valid : IsValid others k bs) (gaps : Gaps)
      (ts : List Thread) where
    abbrev found : Chain
    found = flatten (found_chains valid gaps ts)

    count_run :
        (reply : ℕ × List Thread × Kernel)
        → count_among gaps (bucket_count k.table.bits) 0 0 ts k ≡ reply
        → kv_hash_count_among gaps ts k ≡ (to_int reply.0, reply.1, reply.2)
    unfolding kv_hash_count_among
    count_run reply e =
        ap (count_from gaps ts k) valid.ready
        ∙ ap (λ (r : ℕ × List Thread × Kernel). (to_int r.0, r.1, r.2)) e

    snapshot_run :
        (entries : List KvMessage) (max_entries out_count : ℕ)
        → 0 < max_entries
        → (reply : List KvMessage × ℕ × List Thread × Kernel)
        → copy_among gaps (bucket_count k.table.bits) 0 max_entries entries 0 ts k ≡ reply
        → kv_hash_snapshot_among gaps entries max_entries out_count ts k
          ≡ (pos 0, reply.0, reply.1, reply.2, reply.3)
    unfolding kv_hash_snapshot_among
    snapshot_run entries max_entries out_count h reply e =
        let not_zero : (max_entries == 0) ≡ false = ground (arith, h) in
        ap (copy_from gaps entries max_entries out_count ts k) valid.ready ∙ rw (not_zero, e) refl

    abbrev all_buckets : bucket_count k.table.bits ≡ 2 ^ k.table.bits
    all_buckets = bucket_count_small k.table.bits valid.few_bits

    -- The count.
    count_finds : (kv_hash_count_among gaps ts k).0 ≡ to_int (length found)
    count_finds =
        let counted = count_among_lem gaps (2 ^ k.table.bits) 0 0 ts k in
        let zero_more : 0 + length found ≡ length found = omega arith in
        let c = count_among gaps (2 ^ k.table.bits) 0 0 ts k in
        let run = count_run c (rw all_buckets refl) in
        ap (λ (r : ℤ × List Thread × Kernel). r.0) run ∙ ap to_int (counted ∙ zero_more)

    prefix-Written :
        (entries array : List KvMessage) (max_entries n : ℕ) (ts' : List Thread) (k' : Kernel)
        → length array ≡ length entries
        → n ≡ min max_entries (length found)
        → take n array ≡ messages (take max_entries found)
        → Written gaps ts k max_entries entries (pos 0, array, n, ts', k')
    prefix-Written entries array max_entries n ts' k' room number copies =
        let sees = found-Sees valid gaps ts in
        record {
          code = refl;
          room = room;
          total = length found;
          number = number;
          counted = count_finds;
          once = λ q.
              rw (copies, key_count-messages)
                (omega (arith, occurs-take q max_entries found, sees.once q));
          sound = λ q v h.
              ap cut (sym (sees.reads q))
              ∙ messages_true q max_entries found v sees.strings
                  (ap (find_message q) (sym copies) ∙ h);
          complete = λ q few.
              ap (find_message q) copies
              ∙ ap (λ c. find_message q (messages c)) (take_all max_entries found few)
              ∙ find_message-messages q found sees.strings
              ∙ ap cut (sees.reads q);
        }

    -- From a valid table, while any number of threads run in the handlers of insert, update, get
    -- and delete in front of every bucket that `kv_hash_snapshot` locks, with a limit above 0 and
    -- an array of at least that many messages: the snapshot answers 0 and keeps the length of the
    -- array; it reports the smaller of the limit and the number of entries that it finds, which is
    -- what a `kv_hash_count` at the same moments answers, wrapped to an `int`; no key has two
    -- messages; a message of a key holds the value that the key had when the snapshot was at its
    -- bucket, cut to 63 bytes; and if it finds no more than the limit, every key that was there at
    -- that moment has its message.
    pub snapshot-Written :
        (entries : List KvMessage) (max_entries out_count : ℕ)
        → 0 < max_entries
        → max_entries ≤ length entries
        → Written gaps ts k max_entries entries
            (kv_hash_snapshot_among gaps entries max_entries out_count ts k)
    snapshot-Written entries max_entries out_count h room =
        let all = copy_chain found max_entries entries 0 in
        let copied = copy_chain-Copied found max_entries entries 0 (omega arith) room in
        let less : max_entries - 0 ≡ max_entries = omega arith in
        let zero_more : 0 + length found ≡ length found = omega arith in
        let copies : take all.2 all.1 ≡ messages (take max_entries found) =
          copied.copies ∙ rw (take_zero entries, less) refl in
        let r = copy_among gaps (2 ^ k.table.bits) 0 max_entries entries 0 ts k in
        let wrote : written_by r ≡ (all.1, all.2) =
          copy_among_lem gaps (2 ^ k.table.bits) 0 max_entries entries 0 ts k in
        rw (snapshot_run entries max_entries out_count h r (rw all_buckets refl)) (
          subst
            (λ (w : List KvMessage × ℕ).
              Written gaps ts k max_entries entries (pos 0, w.0, w.1, r.2, r.3))
            (sym wrote)
            (prefix-Written entries all.1 max_entries all.2 r.2 r.3 copied.room
              (copied.number ∙ ap (min max_entries) zero_more) copies))
