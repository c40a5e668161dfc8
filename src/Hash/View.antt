-- ===== src/Hash/View.antt =====
-- The map from keys to values that a table of kernel/kv_hash.c stands for, and what a write to one
-- bucket makes of it.
use kvstore_lkm.Prelude.{
  ℕ, ◌+◌, ◌*◌, ◌≤◌, ◌<◌, ◌≡◌, refl, Bool, true, false, Option, none, some, List, [], arith, ◌==◌,
  if◌then◌else◌, length, get_or, set, flatten, length-set, get_or-set, replaced_total,
}
use kvstore_lkm.Hash.Chain.{Chain, find, occurs, AllStrings}
use kvstore_lkm.Hash.Table.{Hashing, Kernel, IsValid}

-- A store as its clients see it.
abbrev pub Contents : Type 0
Contents = ℕ → Option (List ℕ)

abbrev pub update : Contents → ℕ → Option (List ℕ) → Contents
update f k v q = if k == q then v else f q

abbrev pub found : Option (List ℕ) → ℕ
found none = 0
found (some v) = 1

abbrev pub is_found : Option (List ℕ) → Bool
is_found none = false
is_found (some v) = true

abbrev pub entries_of : Option (List Chain) → ℕ
entries_of none = 0
entries_of (some bs) = length (flatten bs)

-- How many entries the table holds.
abbrev pub entry_total : Kernel → ℕ
entry_total k = entries_of k.table.buckets

module _ ⦃hashing : Hashing⦄ where
  abbrev pub contents_of : ℕ → Option (List Chain) → Contents
  contents_of bits none q = none
  contents_of bits (some bs) q = find q (get_or bs (hashing.hash_min q bits) [])

  abbrev pub contents : Kernel → Contents
  contents k = contents_of k.table.bits k.table.buckets

  pub contents-IsValid :
      {others : ℕ} {k : Kernel} {bs : List Chain}
      → IsValid others k bs
      → (q : ℕ) → contents k q ≡ find q (get_or bs (hashing.hash_min q k.table.bits) [])
  contents-IsValid valid q = ground (arith, valid.ready)

  pub entry_total-IsValid :
      {others : ℕ} {k : Kernel} {bs : List Chain}
      → IsValid others k bs
      → entry_total k ≡ length (flatten bs)
  entry_total-IsValid valid = ground (arith, valid.ready)

  -- `k'` is a valid table too, and holds what `k` does but for `v` at `key`.
  pub record Puts (others : ℕ) (k : Kernel) (key : ℕ) (v : Option (List ℕ)) (k' : Kernel)
      : Type 0 where
    pub chains : List Chain
    pub valid : IsValid others k' chains
    pub reads : (q : ℕ) → contents k' q ≡ update (contents k) key v q
    pub size : entry_total k' + found (contents k key) ≡ entry_total k + found v
    pub same_bits : k'.table.bits ≡ k.table.bits

  module _ {others : ℕ} {k : Kernel} {bs : List Chain} (valid : IsValid others k bs) (key : ℕ) where
    abbrev pub home : ℕ
    home = hashing.hash_min key k.table.bits

    pub home-lt : home < length bs
    home-lt = omega (arith, hashing.hash_min-lt key k.table.bits valid.some_bits valid.few_bits)

    abbrev pub home_chain : Chain
    home_chain = get_or bs home []

    -- The table after its home chain for `key` has become `c`.
    abbrev pub with_chain : Chain → ℕ → Bool → Kernel
    with_chain c live slept = record {
      table = record k.table { buckets = some (set bs home c) };
      live = live;
      held = [];
      slept = slept;
    }

    pub with_chain-Puts :
        (v : Option (List ℕ)) (c : Chain) (live : ℕ) (slept : Bool)
        → ((q : ℕ) → occurs q c ≤ (if key == q then 1 else occurs q home_chain))
        → ((q : ℕ) → find q c ≡ (if key == q then v else find q home_chain))
        → AllStrings c
        → length c + found (find key home_chain) ≡ length home_chain + found v
        → live + 2 * length home_chain ≡ k.live + 2 * length c
        → Puts others k key v (with_chain c live slept)
    with_chain-Puts v c live slept few reads strings size fits = record {
      chains = set bs home c;
      valid = record {
        ready = refl;
        locks = valid.locks;
        some_bits = valid.some_bits;
        few_bits = valid.few_bits;
        width = omega (arith, valid.width, length-set bs home c);
        placed = λ q i.
            rw (get_or-set bs home i c [] home-lt)
              (ground (arith, valid.placed q i, valid.placed q home, few q));
        strings =
            λ i. rw (get_or-set bs home i c [] home-lt) (ground (arith, valid.strings i, strings));
        balanced = omega (arith, valid.balanced, replaced_total bs c home home-lt);
        unlocked = refl;
      };
      reads = λ q.
          rw (get_or-set bs home (hashing.hash_min q k.table.bits) c [] home-lt)
            (ground (arith, reads q, contents-IsValid valid q));
      size =
          rw (contents-IsValid valid key, entry_total-IsValid valid)
            (omega (arith, size, replaced_total bs c home home-lt));
      same_bits = refl;
    }

    -- The table as it was: nothing is put, and the home chain is read back.
    pub same-Puts :
        (live : ℕ) (slept : Bool)
        → live ≡ k.live
        → Puts others k key (contents k key) (record k { live = live; held = []; slept = slept })
    same-Puts live slept e = record {
      chains = bs;
      valid = record {
        ready = valid.ready;
        locks = valid.locks;
        some_bits = valid.some_bits;
        few_bits = valid.few_bits;
        width = valid.width;
        placed = valid.placed;
        strings = valid.strings;
        balanced = omega (arith, valid.balanced);
        unlocked = refl;
      };
      reads = λ q. ground arith;
      size = refl;
      same_bits = refl;
    }
