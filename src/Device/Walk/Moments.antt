-- ===== src/Device/Walk/Moments.antt =====
-- The states at which a walk over the table of kernel/kv_hash.c reaches its buckets, and the chains
-- that it finds there.
use kvstore_lkm.Prelude.{
  ℕ, Bool, true, false, zero, suc, ◌+◌, ◌≤◌, ◌<◌, ◌≡◌, refl, ap, ◌∙◌, List, [], ◌∷◌, arith, length,
  length-append, get_or, flatten, if◌then◌else◌,
}
use kvstore_lkm.Message.{KvMessage}
use kvstore_lkm.Hash.Chain.{Chain}
use kvstore_lkm.Hash.Table.{Hashing, Kernel, spin_lock, spin_unlock}
use kvstore_lkm.Hash.Ops.{count_chain, copy_chain}
use kvstore_lkm.Hash.Count.{lock_unlock, count_chain_lem}
use kvstore_lkm.Hash.Snapshot.{copy_chain-append, flatten-cons}
use kvstore_lkm.Device.Interleave.{Thread, interleave}
use kvstore_lkm.Device.Walk.{Gaps, chain_at, count_among, copy_among}

-- What a walk leaves in the array.
abbrev pub written_by : List KvMessage × ℕ × List Thread × Kernel → List KvMessage × ℕ
written_by (entries, n, ts, k) = (entries, n)

if_written :
    (full : Bool) (s q : Bool × List KvMessage × ℕ) (ts : List Thread) (k : Kernel)
    (y : List KvMessage × ℕ × List Thread × Kernel)
    → written_by y ≡ (q.1, q.2)
    → written_by (if full then (s.1, s.2, ts, k) else y)
      ≡ ((if full then s else q).1, (if full then s else q).2)
if_written true s q ts k y h = refl
if_written false s q ts k y h = h

module _ ⦃hashing : Hashing⦄ where
  -- The threads and the table when the walk is in front of a bucket, before the turns of its gap.
  unfoldable pub reached : Gaps → ℕ → List Thread → Kernel → List Thread × Kernel
  reached gaps zero ts k = (ts, k)
  reached gaps (suc bucket) ts k =
      let (ts', k') = reached gaps bucket ts k in interleave (gaps bucket) ts' k'

  -- The table when the walk holds the lock of the bucket.
  abbrev pub moment : Gaps → ℕ → List Thread → Kernel → Kernel
  moment gaps bucket ts k = (reached gaps (suc bucket) ts k).1

  -- The chains that the walk finds, from a bucket on.
  unfoldable pub visited : Gaps → ℕ → ℕ → List Thread → Kernel → List Chain
  visited gaps zero bucket ts k = []
  visited gaps (suc rounds) bucket ts k =
      let (ts', k') = interleave (gaps bucket) ts k in
      chain_at bucket k' ∷ visited gaps rounds (suc bucket) ts' k'

  count_among_step :
      (gaps : Gaps) (r b n : ℕ) (ts : List Thread) (k : Kernel)
      → count_among gaps (suc r) b n ts k ≡ (
          let (ts', k') = interleave (gaps b) ts k in
          count_among gaps r (suc b) (n + length (chain_at b k')) ts' k')
  count_among_step gaps r b n ts k =
      let s = interleave (gaps b) ts k in
      let round : count_among gaps (suc r) b n ts k
          ≡ count_among gaps r (suc b) (count_chain (chain_at b s.1) n) s.0
              (spin_unlock b (spin_lock b s.1)) =
        unfold count_among in refl in
      rw (count_chain_lem, lock_unlock) at round

  -- A count adds up the chains that it finds.
  pub count_among_lem :
      (gaps : Gaps) (r b n : ℕ) (ts : List Thread) (k : Kernel)
      → (count_among gaps r b n ts k).0 ≡ n + length (flatten (visited gaps r b ts k))
  count_among_lem gaps zero b n ts k = unfold count_among visited flatten in omega arith
  count_among_lem gaps (suc r) b n ts k =
      let s = interleave (gaps b) ts k in
      let rest = visited gaps r (suc b) s.0 s.1 in
      let more : visited gaps (suc r) b ts k ≡ chain_at b s.1 ∷ rest = unfold visited in refl in
      rw (count_among_step gaps r b n ts k, count_among_lem gaps r (suc b), more, flatten-cons)
        (omega (arith, length-append (chain_at b s.1) (flatten rest)))

  copy_among_step :
      (gaps : Gaps) (r b max_entries : ℕ) (entries : List KvMessage) (n : ℕ) (ts : List Thread)
      (k : Kernel)
      → copy_among gaps (suc r) b max_entries entries n ts k ≡ (
          let (ts', k') = interleave (gaps b) ts k in
          let s = copy_chain (chain_at b k') max_entries entries n in
          if s.0 then (s.1, s.2, ts', k') else copy_among gaps r (suc b) max_entries s.1 s.2 ts' k')
  copy_among_step gaps r b max_entries entries n ts k =
      let t = interleave (gaps b) ts k in
      let s = copy_chain (chain_at b t.1) max_entries entries n in
      let k' = spin_unlock b (spin_lock b t.1) in
      let round : copy_among gaps (suc r) b max_entries entries n ts k ≡ (
          if s.0
          then (s.1, s.2, t.0, k')
          else copy_among gaps r (suc b) max_entries s.1 s.2 t.0 k') =
        unfold copy_among in refl in
      rw lock_unlock at round

  -- A snapshot copies the chains that it finds, as one loop over all of them.
  pub copy_among_lem :
      (gaps : Gaps) (r b max_entries : ℕ) (entries : List KvMessage) (n : ℕ) (ts : List Thread)
      (k : Kernel)
      → written_by (copy_among gaps r b max_entries entries n ts k)
        ≡ (let s = copy_chain (flatten (visited gaps r b ts k)) max_entries entries n in (s.1, s.2))
  copy_among_lem gaps zero b max_entries entries n ts k =
      unfold copy_among visited flatten copy_chain in refl
  copy_among_lem gaps (suc r) b max_entries entries n ts k =
      let t = interleave (gaps b) ts k in
      let rest = visited gaps r (suc b) t.0 t.1 in
      let s = copy_chain (chain_at b t.1) max_entries entries n in
      let more : visited gaps (suc r) b ts k ≡ chain_at b t.1 ∷ rest = unfold visited in refl in
      rw
        (
          copy_among_step gaps r b max_entries entries n ts k,
          more,
          flatten-cons (chain_at b t.1) rest,
          copy_chain-append (chain_at b t.1) (flatten rest) max_entries entries n,
        )
        (if_written s.0 s (copy_chain (flatten rest) max_entries s.1 s.2) t.0 t.1 _
          (copy_among_lem gaps r (suc b) max_entries s.1 s.2 t.0 t.1))

  -- Each chain that the walk finds is the chain of its bucket at that moment.
  pub visited_from :
      (gaps : Gaps) (r b i : ℕ) (ts : List Thread) (k : Kernel)
      → i < r
      → get_or (visited gaps r b (reached gaps b ts k).0 (reached gaps b ts k).1) i []
        ≡ chain_at (b + i) (moment gaps (b + i) ts k)
  unfolding visited reached get_or
  visited_from gaps zero b i ts k h = absurd (omega (arith, h))
  visited_from gaps (suc r) b zero ts k h =
      let e : b ≡ b + 0 = omega arith in ap (λ j. chain_at j (moment gaps j ts k)) e
  visited_from gaps (suc r) b (suc i) ts k h =
      let e : suc b + i ≡ b + suc i = omega arith in
      visited_from gaps r (suc b) i ts k (omega (arith, h))
      ∙ ap (λ j. chain_at j (moment gaps j ts k)) e

  pub visited_beyond :
      (gaps : Gaps) (r b i : ℕ) (ts : List Thread) (k : Kernel)
      → r ≤ i
      → get_or (visited gaps r b ts k) i [] ≡ []
  unfolding visited get_or
  visited_beyond gaps zero b i ts k h = refl
  visited_beyond gaps (suc r) b zero ts k h = absurd (omega (arith, h))
  visited_beyond gaps (suc r) b (suc i) ts k h =
      visited_beyond gaps r (suc b) i _ _ (omega (arith, h))
