-- ===== src/Benchmark/Latency/Leaves.antt =====
-- What the latency benchmarks of benchmark/benchmark.cpp leave in the store.
use kvstore_lkm.Prelude.{
  ℕ, suc, ◌+◌, ◌*◌, ◌≡◌, ◌≤◌, ◌<◌, ◌^◌, sym, ◌∙◌, none, List, [], ◌++◌, arith, codes,
}
use mathlib.Core.Path.{subst}
use kvstore_lkm.Text.{decimal}
use kvstore_lkm.Hash.View.{Contents}
use kvstore_lkm.Daemon.Protocol.{promised}
use kvstore_lkm.Benchmark.{Peer}
use kvstore_lkm.Benchmark.Promise.{
  KeepsPromise, numbered-IsValue, absent_inserts, found_updates, found_deletes, kv_insert_lem,
  kv_get_lem, kv_update_lem, kv_delete_lem,
}
use kvstore_lkm.Benchmark.Latency.{
  key_count, warmup_count, each, warm_up, measure_insert, measure_lookup, measure_update,
  measure_delete, latency_loops,
}
use kvstore_lkm.Benchmark.Latency.Loops.{
  each_lem, span, span_none, span_more, span_less, span_over, span_at, span_outside,
}

abbrev pub warm_value : ℕ → List ℕ
warm_value i = codes "Warmup:" ++ decimal i

abbrev pub new_value : ℕ → List ℕ
new_value i = codes "value" ++ decimal i

abbrev pub updated_value : ℕ → List ℕ
updated_value i = codes "updated_value" ++ decimal i

-- None of the keys from `first` on is there, so many of them.
abbrev pub Lacks : ℕ → ℕ → Contents → Type 0
Lacks first count f = (i : ℕ) → i < count → f (first + i) ≡ none

-- The keys of a run with this base key are not there.
abbrev pub LacksAll : ℕ → Contents → Type 0
LacksAll base f = Lacks base key_count f × Lacks (base + key_count * 10) warmup_count f

-- The map with the warm-up keys in it.
abbrev pub left_behind : ℕ → Contents → Contents
left_behind base f = span warm_value (base + key_count * 10) 0 warmup_count f

module _ {S : Type 0} {peer : Peer S} {shows : Contents → S → Type 0}
    (keeps : KeepsPromise peer promised shows) (base : ℕ)
    (in_range : base + key_count * 10 + warmup_count ≤ 2 ^ 64) where
  warm_step :
      (f : Contents)
      → Lacks (base + key_count * 10) warmup_count f
      → (i : ℕ) (s : S) → i < warmup_count
      → shows (span warm_value (base + key_count * 10) 0 i f) s
      → shows (span warm_value (base + key_count * 10) 0 (suc i) f) (warm_up peer base i s)
  warm_step f absent i s h shown =
      let w = base + key_count * 10 in
      let g = span warm_value w 0 i f in
      let free = span_outside warm_value w 0 i (w + i) f (ground arith) ∙ absent i h in
      let done =
        kv_insert_lem keeps (w + i) (omega (arith, in_range, h)) g s shown (warm_value i)
          (numbered-IsValue b'W' (codes "armup:") i (ground arith) (ground arith) (omega arith)) in
      subst (λ m. shows m (warm_up peer base i s))
        (absent_inserts (w + i) (warm_value i) g free ∙ span_more warm_value w i f) (done.1)

  insert_step :
      (f : Contents)
      → Lacks base key_count f
      → (i : ℕ) (s : S) → i < key_count
      → shows (span new_value base 0 i f) s
      → shows (span new_value base 0 (suc i) f) (measure_insert peer base i s)
  insert_step f absent i s h shown =
      let g = span new_value base 0 i f in
      let free = span_outside new_value base 0 i (base + i) f (ground arith) ∙ absent i h in
      let done =
        kv_insert_lem keeps (base + i) (omega (arith, in_range, h)) g s shown (new_value i)
          (numbered-IsValue b'v' (codes "alue") i (ground arith) (ground arith) (omega arith)) in
      subst (λ m. shows m (measure_insert peer base i s))
        (absent_inserts (base + i) (new_value i) g free ∙ span_more new_value base i f) (done.1)

  lookup_step :
      (f : Contents) (i : ℕ) (s : S)
      → i < key_count
      → shows f s
      → shows f (measure_lookup peer base i s)
  lookup_step f i s h shown = (kv_get_lem keeps (base + i) (omega (arith, in_range, h)) f s shown).1

  update_step :
      (f : Contents) (i : ℕ) (s : S)
      → i < key_count
      → shows (span updated_value base 0 i (span new_value base 0 key_count f)) s
      → shows
          (span updated_value base 0 (suc i) (span new_value base 0 key_count f))
          (measure_update peer base i s)
  update_step f i s h shown =
      let old = span new_value base 0 key_count f in
      let g = span updated_value base 0 i old in
      let there =
        span_outside updated_value base 0 i (base + i) old (ground arith)
        ∙ span_at new_value base 0 key_count i f (omega arith) h in
      let done =
        kv_update_lem keeps (base + i) (omega (arith, in_range, h)) g s shown (updated_value i) (
          numbered-IsValue b'u' (codes "pdated_value") i (ground arith) (ground arith)
            (omega arith)) in
      subst (λ m. shows m (measure_update peer base i s))
        (found_updates (base + i) (updated_value i) (new_value i) g there
          ∙ span_more updated_value base i old)
        (done.1)

  delete_step :
      (f : Contents)
      → Lacks base key_count f
      → (i : ℕ) (s : S) → i < key_count
      → shows (span updated_value base i key_count f) s
      → shows (span updated_value base (suc i) key_count f) (measure_delete peer base i s)
  delete_step f absent i s h shown =
      let g = span updated_value base i key_count f in
      let there = span_at updated_value base i key_count i f (omega arith) h in
      let done = kv_delete_lem keeps (base + i) (omega (arith, in_range, h)) g s shown in
      subst (λ m. shows m (measure_delete peer base i s))
        (found_deletes (base + i) [] (updated_value i) g there
          ∙ span_less updated_value base i key_count f h (absent i h))
        (done.1)

  still-Lacks : (f : Contents) → Lacks base key_count f → Lacks base key_count (left_behind base f)
  still-Lacks f absent i h =
      span_outside warm_value (base + key_count * 10) 0 warmup_count (base + i) f
        (ground (arith, h))
      ∙ absent i h

  pub latency_loops_lem :
      (f : Contents) (s : S)
      → Lacks base key_count f
      → Lacks (base + key_count * 10) warmup_count f
      → shows f s
      → shows (left_behind base f) (latency_loops peer base s)
  latency_loops_lem f s absent absent_warm shown =
      let w = base + key_count * 10 in
      let g = left_behind base f in
      let lacks = still-Lacks f absent in
      let warmed =
        each_lem (λ i s'. shows (span warm_value w 0 i f) s') (warm_up peer base) warmup_count
          (warm_step f absent_warm) warmup_count 0 s (omega arith)
          (subst (λ m. shows m s) (sym (span_none warm_value w 0 f)) shown) in
      let s₁ = each warmup_count 0 (warm_up peer base) s in
      let inserted =
        each_lem (λ i s'. shows (span new_value base 0 i g) s') (measure_insert peer base) key_count
          (insert_step g lacks) key_count 0 s₁ (omega arith)
          (subst (λ m. shows m s₁) (sym (span_none new_value base 0 g)) warmed) in
      let s₂ = each key_count 0 (measure_insert peer base) s₁ in
      let old = span new_value base 0 key_count g in
      let looked =
        each_lem (λ i s'. shows old s') (measure_lookup peer base) key_count (lookup_step old)
          key_count 0 s₂ (omega arith) inserted in
      let s₃ = each key_count 0 (measure_lookup peer base) s₂ in
      let updated =
        each_lem (λ i s'. shows (span updated_value base 0 i old) s') (measure_update peer base)
          key_count (update_step g) key_count 0 s₃ (omega arith)
          (subst (λ m. shows m s₃) (sym (span_none updated_value base 0 old)) looked) in
      let s₄ = each key_count 0 (measure_update peer base) s₃ in
      let deleted =
        each_lem (λ i s'. shows (span updated_value base i key_count g) s')
          (measure_delete peer base) key_count (delete_step g lacks) key_count 0 s₄ (omega arith)
          (subst (λ m. shows m s₄) (span_over new_value updated_value base 0 key_count g)
            updated) in
      unfold latency_loops in
      subst (λ m. shows m (each key_count 0 (measure_delete peer base) s₄))
        (span_none updated_value base key_count g) deleted
