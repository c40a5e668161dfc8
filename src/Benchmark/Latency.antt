-- ===== src/Benchmark/Latency.antt =====
-- The latency benchmarks of benchmark/benchmark.cpp: what they do to the store. The times, and the
-- file that they go to, are left out.
pub mod Loops
pub mod Leaves
pub mod Run
pub mod Threads
use kvstore_lkm.Prelude.{
  ℕ, zero, suc, ◌+◌, ◌*◌, Bool, not, List, ◌++◌, if◌then◌else◌, codes, is_neg,
}
use kvstore_lkm.Text.{decimal}
use kvstore_lkm.Benchmark.{Peer, Net, setup_connection, kv_insert, kv_get, kv_delete, kv_update}

abbrev pub key_count : ℕ
key_count = 20000

abbrev pub warmup_count : ℕ
warmup_count = 2000

-- A loop: its body for so many numbers, from i on.
unfoldable pub each : {S : Type 0} → ℕ → ℕ → (ℕ → S → S) → S → S
each zero i body s = s
each (suc rounds) i body s = each rounds (suc i) body (body i s)

module _ {S : Type 0} (peer : Peer S) (base_key : ℕ) where
  -- The bodies of the five loops; what the operations answer is not tested.
  abbrev pub warm_up : ℕ → S → S
  warm_up i s =
      (kv_insert peer (decimal (base_key + key_count * 10 + i)) (codes "Warmup:" ++ decimal i) s).1

  abbrev pub measure_insert : ℕ → S → S
  measure_insert i s = (kv_insert peer (decimal (base_key + i)) (codes "value" ++ decimal i) s).1

  abbrev pub measure_lookup : ℕ → S → S
  measure_lookup i s = (kv_get peer (decimal (base_key + i)) s).1

  abbrev pub measure_update : ℕ → S → S
  measure_update i s =
      (kv_update peer (decimal (base_key + i)) (codes "updated_value" ++ decimal i) s).1

  abbrev pub measure_delete : ℕ → S → S
  measure_delete i s = (kv_delete peer (decimal (base_key + i)) s).1

  unfoldable pub latency_loops : S → S
  latency_loops s =
      let s₁ = each warmup_count 0 warm_up s in
      let s₂ = each key_count 0 measure_insert s₁ in
      let s₃ = each key_count 0 measure_lookup s₂ in
      let s₄ = each key_count 0 measure_update s₃ in each key_count 0 measure_delete s₄

module _ {S : Type 0} (peer : Peer S) where
  unfoldable pub run_latency_bench_single_core : Net → List ℕ → List ℕ → S → S
  run_latency_bench_single_core net username password s =
      let (sock, open_descriptors, s') = setup_connection peer net username password s in
      if is_neg sock then s' else latency_loops peer 0 s'

  -- One thread of `run_latency_bench_multi_thread`.
  unfoldable pub worker : Net → List ℕ → List ℕ → ℕ → Bool → S → S
  worker net username password tid file_open s =
      let (sock, open_descriptors, s') = setup_connection peer net username password s in
      if is_neg sock
      then s'
      else if not file_open
      then s'
      else latency_loops peer (tid * 1000000) s'
