-- ===== src/Benchmark/Latency/Threads/Ours.antt =====
-- The commands of the threads of `run_latency_bench_multi_thread` of benchmark/benchmark.cpp are
-- commands that the daemon takes, on keys of the thread.
use kvstore_lkm.Prelude.{
  ℕ, zero, suc, ◌+◌, ◌≡◌, ◌≤◌, ◌<◌, ◌^◌, sym, true, inl, inr, Bool-cases, List, ◌∷◌, ltb, length,
  length-append, arith, codes,
}
use mathlib.Core.Path.{subst}
use kvstore_lkm.Text.{decimal}
use kvstore_lkm.Message.{Cmd, kv_insert, kv_update}
use kvstore_lkm.Daemon.Command.Dispatch.{NeedsNoValue, name_of, IsKeyed}
use kvstore_lkm.Daemon.Protocol.{Order}
use kvstore_lkm.Daemon.Connections.Shared.{Asked}
use kvstore_lkm.Benchmark.Texts.{length-decimal}
use kvstore_lkm.Benchmark.Promise.{IsValue, bare, valued, length-valued, numbered-IsValue}
use kvstore_lkm.Benchmark.Latency.{key_count, warmup_count}
use kvstore_lkm.Benchmark.Latency.Leaves.{warm_value, new_value, updated_value}
use kvstore_lkm.Benchmark.Latency.Threads.{
  warm_order, insert_order, lookup_order, update_order, delete_order, loop_asks, thread_asks,
}
use kvstore_lkm.Benchmark.Latency.Threads.Apart.{
  in_keys, IsOurs, AllOurs, AllOurs-append, IsMerge, own_ours,
}

bare-IsOurs :
    (tid : ℕ) (cmd : Cmd) (n : ℕ)
    → NeedsNoValue cmd
    → length (name_of cmd) ≤ 9
    → tid < 8
    → n < 2 ^ 64
    → in_keys tid n ≡ true
    → IsOurs (record { connection = tid; order = bare cmd n })
bare-IsOurs tid cmd n need short few in_range key = record {
  order = record { in_range = in_range; has_value = need; text = tt };
  fits = omega (arith, short, length-append (name_of cmd) (32 ∷ decimal n), length-decimal n);
  few = few;
  key = key;
}

valued-IsOurs :
    (tid : ℕ) (cmd : Cmd) (n : ℕ) (text : List ℕ)
    → IsValue text
    → IsKeyed cmd text
    → length (name_of cmd) ≤ 9
    → tid < 8
    → n < 2 ^ 64
    → in_keys tid n ≡ true
    → IsOurs (record { connection = tid; order = valued cmd n text })
valued-IsOurs tid cmd n text value keyed short few in_range key = record {
  order = record {
    in_range = in_range;
    has_value = (keyed, value.no_newline);
    text = value.no_nul;
  };
  fits = length-valued (name_of cmd) n text short value.fits;
  few = few;
  key = key;
}

loop_ours :
    (tid : ℕ) (order : ℕ → Order) (rounds i : ℕ)
    → ((k : ℕ) → k < i + rounds → IsOurs (record { connection = tid; order = order k }))
    → AllOurs (loop_asks tid order rounds i)
unfolding loop_asks
loop_ours tid order zero i h = tt
loop_ours tid order (suc rounds) i h =
    (h i (omega arith), loop_ours tid order rounds (suc i) (λ k e. h k (omega (arith, e))))

module _ (tid : ℕ) (few : tid < 8) where
  warm_ours : AllOurs (loop_asks tid (warm_order tid) warmup_count 0)
  warm_ours = loop_ours tid (warm_order tid) warmup_count 0 (λ i h.
      let value =
        numbered-IsValue b'W' (codes "armup:") i (ground arith) (ground arith) (omega arith) in
      valued-IsOurs tid kv_insert _ (warm_value i) value tt (omega arith) few
        (omega (arith, few, h)) (ground (arith, h)))

  insert_ours : AllOurs (loop_asks tid (insert_order tid) key_count 0)
  insert_ours = loop_ours tid (insert_order tid) key_count 0 (λ i h.
      let value =
        numbered-IsValue b'v' (codes "alue") i (ground arith) (ground arith) (omega arith) in
      valued-IsOurs tid kv_insert _ (new_value i) value tt (omega arith) few (omega (arith, few, h))
        (ground (arith, h)))

  lookup_ours : AllOurs (loop_asks tid (lookup_order tid) key_count 0)
  lookup_ours =
      loop_ours tid (lookup_order tid) key_count 0 (λ i h.
        bare-IsOurs tid _ _ tt (omega arith) few (omega (arith, few, h)) (ground (arith, h)))

  update_ours : AllOurs (loop_asks tid (update_order tid) key_count 0)
  update_ours = loop_ours tid (update_order tid) key_count 0 (λ i h.
      let value =
        numbered-IsValue b'u' (codes "pdated_value") i (ground arith) (ground arith)
          (omega arith) in
      valued-IsOurs tid kv_update _ (updated_value i) value tt (omega arith) few
        (omega (arith, few, h)) (ground (arith, h)))

  delete_ours : AllOurs (loop_asks tid (delete_order tid) key_count 0)
  delete_ours =
      loop_ours tid (delete_order tid) key_count 0 (λ i h.
        bare-IsOurs tid _ _ tt (omega arith) few (omega (arith, few, h)) (ground (arith, h)))

  thread_ours : AllOurs (thread_asks tid)
  thread_ours = AllOurs-append _ _ warm_ours (
      AllOurs-append _ _ insert_ours
        (AllOurs-append _ _ lookup_ours (AllOurs-append _ _ update_ours delete_ours)))

-- All commands of such an order are commands of the threads.
pub merge_ours : (asks : List Asked) → IsMerge asks → AllOurs asks
merge_ours asks merge = own_ours asks (λ c. elim (Bool-cases (ltb c 8)) [
  | inl below ↦
      let few : c < 8 = ground (arith, below) in
      subst AllOurs (sym (merge.ours c few)) (thread_ours c few)
  | inr above ↦
      let many : 8 ≤ c = ground (arith, above) in subst AllOurs (sym (merge.others c many)) tt
])
