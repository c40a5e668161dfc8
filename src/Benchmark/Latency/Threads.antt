-- ===== src/Benchmark/Latency/Threads.antt =====
-- The 8 threads of `run_latency_bench_multi_thread` of benchmark/benchmark.cpp: each has a
-- connection of its own, and sends its commands over it in order.
pub mod Apart
pub mod Ours
pub mod Leave
pub mod Turns
use kvstore_lkm.Prelude.{ℕ, zero, suc, ◌+◌, ◌*◌, ◌≡◌, refl, sym, ap, ◌∙◌, List, [], ◌∷◌, ◌++◌}
use kvstore_lkm.Message.{kv_insert, kv_delete, kv_get, kv_update}
use kvstore_lkm.Hash.Table.{Hashing}
use kvstore_lkm.Daemon.Command.{Setting}
use kvstore_lkm.Daemon.Protocol.{Order}
use kvstore_lkm.Daemon.Connections.{Service, handle_event, handle_events}
use kvstore_lkm.Daemon.Connections.Shared.{Asked, event_of, events_of}
use kvstore_lkm.Benchmark
use kvstore_lkm.Benchmark.Connections.{on_connection}
use kvstore_lkm.Benchmark.Promise.{bare, valued}
use kvstore_lkm.Benchmark.Latency.{
  key_count, warmup_count, each, warm_up, measure_insert, measure_lookup, measure_update,
  measure_delete, latency_loops,
}
use kvstore_lkm.Benchmark.Latency.Leaves.{warm_value, new_value, updated_value}

abbrev pub base_key : ℕ → ℕ
base_key tid = tid * 1000000

-- The commands of the loops of a thread.
abbrev pub warm_order : ℕ → ℕ → Order
warm_order tid i = valued kv_insert (base_key tid + key_count * 10 + i) (warm_value i)

abbrev pub insert_order : ℕ → ℕ → Order
insert_order tid i = valued kv_insert (base_key tid + i) (new_value i)

abbrev pub lookup_order : ℕ → ℕ → Order
lookup_order tid i = bare kv_get (base_key tid + i)

abbrev pub update_order : ℕ → ℕ → Order
update_order tid i = valued kv_update (base_key tid + i) (updated_value i)

abbrev pub delete_order : ℕ → ℕ → Order
delete_order tid i = bare kv_delete (base_key tid + i)

unfoldable pub loop_asks : ℕ → (ℕ → Order) → ℕ → ℕ → List Asked
loop_asks tid order zero i = []
loop_asks tid order (suc rounds) i =
    record { connection = tid; order = order i } ∷ loop_asks tid order rounds (suc i)

-- All that a thread sends after its login.
abbrev pub thread_asks : ℕ → List Asked
thread_asks tid =
    loop_asks tid (warm_order tid) warmup_count 0
    ++ (loop_asks tid (insert_order tid) key_count 0
        ++ (loop_asks tid (lookup_order tid) key_count 0
            ++ (loop_asks tid (update_order tid) key_count 0
                ++ loop_asks tid (delete_order tid) key_count 0)))

module _ ⦃hashing : Hashing⦄ (settings : ℕ → Setting) where
  unfoldable run_asks : List Asked → ℕ × Service → ℕ × Service
  run_asks [] st = st
  run_asks (a ∷ asks) st =
      run_asks asks (suc st.0, (handle_event (event_of a (settings st.0)) st.1).1)

  run_asks-events :
      (asks : List Asked) (j : ℕ) (s : Service)
      → (run_asks asks (j, s)).1 ≡ (handle_events (events_of settings j asks) s).1
  unfolding run_asks handle_events
  run_asks-events [] j s = refl
  run_asks-events (a ∷ asks) j s =
      run_asks-events asks (suc j) (handle_event (event_of a (settings j)) s).1

  run_asks-append :
      (xs ys : List Asked) (st : ℕ × Service)
      → run_asks (xs ++ ys) st ≡ run_asks ys (run_asks xs st)
  unfolding run_asks
  run_asks-append [] ys st = refl
  run_asks-append (a ∷ xs) ys st =
      run_asks-append xs ys (suc st.0, (handle_event (event_of a (settings st.0)) st.1).1)

  loop_run :
      (tid : ℕ) (order : ℕ → Order) (body : ℕ → ℕ × Service → ℕ × Service)
      → ((i : ℕ) (st : ℕ × Service)
          → body i st ≡ run_asks (record { connection = tid; order = order i } ∷ []) st)
      → (rounds i : ℕ) (st : ℕ × Service)
      → each rounds i body st ≡ run_asks (loop_asks tid order rounds i) st
  unfolding each run_asks loop_asks
  loop_run tid order body h zero i st = refl
  loop_run tid order body h (suc rounds) i st =
      ap (each rounds (suc i) body) (h i st) ∙ loop_run tid order body h rounds (suc i) _

  -- One part of a thread after another.
  abbrev SendsAll : (ℕ × Service → ℕ × Service) → List Asked → Type 0
  SendsAll body asks = (st : ℕ × Service) → body st ≡ run_asks asks st

  asks_then :
      (first second : ℕ × Service → ℕ × Service) (xs ys : List Asked)
      → SendsAll first xs
      → SendsAll second ys
      → SendsAll (λ st. second (first st)) (xs ++ ys)
  asks_then first second xs ys h g st =
      ap second (h st) ∙ g (run_asks xs st) ∙ sym (run_asks-append xs ys st)

  module _ (tid : ℕ) where
    warm_asks :
        SendsAll
          (each warmup_count 0 (warm_up (on_connection settings tid) (base_key tid)))
          (loop_asks tid (warm_order tid) warmup_count 0)
    warm_asks =
        loop_run tid (warm_order tid) (warm_up (on_connection settings tid) (base_key tid))
          (λ i st. unfold Benchmark.kv_insert run_asks in refl) warmup_count 0

    insert_asks :
        SendsAll
          (each key_count 0 (measure_insert (on_connection settings tid) (base_key tid)))
          (loop_asks tid (insert_order tid) key_count 0)
    insert_asks =
        loop_run tid (insert_order tid) (measure_insert (on_connection settings tid) (base_key tid))
          (λ i st. unfold Benchmark.kv_insert run_asks in refl) key_count 0

    lookup_asks :
        SendsAll
          (each key_count 0 (measure_lookup (on_connection settings tid) (base_key tid)))
          (loop_asks tid (lookup_order tid) key_count 0)
    lookup_asks =
        loop_run tid (lookup_order tid) (measure_lookup (on_connection settings tid) (base_key tid))
          (λ i st. unfold Benchmark.kv_get run_asks in refl) key_count 0

    update_asks :
        SendsAll
          (each key_count 0 (measure_update (on_connection settings tid) (base_key tid)))
          (loop_asks tid (update_order tid) key_count 0)
    update_asks =
        loop_run tid (update_order tid) (measure_update (on_connection settings tid) (base_key tid))
          (λ i st. unfold Benchmark.kv_update run_asks in refl) key_count 0

    delete_asks :
        SendsAll
          (each key_count 0 (measure_delete (on_connection settings tid) (base_key tid)))
          (loop_asks tid (delete_order tid) key_count 0)
    delete_asks =
        loop_run tid (delete_order tid) (measure_delete (on_connection settings tid) (base_key tid))
          (λ i st. unfold Benchmark.kv_delete run_asks in refl) key_count 0

  -- The loops of a thread send that.
  pub loops_run :
      (tid j : ℕ) (s : Service)
      → (latency_loops (on_connection settings tid) (base_key tid) (j, s)).1
        ≡ (handle_events (events_of settings j (thread_asks tid)) s).1
  loops_run tid j s =
      let all = asks_then _ _ _ _ (warm_asks tid) (
        asks_then _ _ _ _ (insert_asks tid) (
          asks_then _ _ _ _ (lookup_asks tid)
            (asks_then _ _ _ _ (update_asks tid) (delete_asks tid)))) in
      unfold latency_loops in (ap (λ r. r.1) (all (j, s)) ∙ run_asks-events (thread_asks tid) j s)
